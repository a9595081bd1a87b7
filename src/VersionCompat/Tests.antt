-- ===== src/VersionCompat/Tests.antt =====
-- Four versions, in their order, in place of the crate semver.
use angavu_intelligence_back.Common.{
  ℕ, ◌≡◌, refl, Bool, true, false, Option, some, none, String, str_eq, ltb, if◌then◌else◌, ◌⊎◌,
}
use angavu_intelligence_back.VersionCompat.{
  Semver, ModelDelta, known_deltas, full_model, patch_for, VersionCompatibilityChecker, unwrapped,
  new, patch_or_full, prepare, check_and_prepare_delta, at_least_min, is_compatible,
}
use angavu_intelligence_back.VersionCompat.Offer.{outdated, check_and_prepare_delta-settles}

data Release : Type 0 where
  v1_0_0 v1_5_0 v2_0_0 v2_1_0 : Release

abbrev rank : Release → ℕ
rank v1_0_0 = 0
rank v1_5_0 = 1
rank v2_0_0 = 2
rank v2_1_0 = 3

abbrev read : String → Option Release
read s =
    if str_eq s "1.0.0"
    then some v1_0_0
    else if str_eq s "1.5.0"
    then some v1_5_0
    else if str_eq s "2.0.0"
    then some v2_0_0
    else if str_eq s "2.1.0"
    then some v2_1_0
    else none

abbrev written : Release → String
written v1_0_0 = "1.0.0"
written v1_5_0 = "1.5.0"
written v2_0_0 = "2.0.0"
written v2_1_0 = "2.1.0"

abbrev before : Release → Release → Bool
before v w = ltb (rank v) (rank w)

read-written : (v : Release) → read (written v) ≡ some v
read-written v1_0_0 = refl
read-written v1_5_0 = refl
read-written v2_0_0 = refl
read-written v2_1_0 = refl

before_irrefl : (v : Release) → before v v ≡ false
before_irrefl v1_0_0 = refl
before_irrefl v1_5_0 = refl
before_irrefl v2_0_0 = refl
before_irrefl v2_1_0 = refl

abbrev releases : Semver
releases = record {
  Version = Release;
  parse = read;
  to_string = written;
  below = before;
  parse-to_string = read-written;
  below_irrefl = before_irrefl;
}

-- The checker that `new` makes.
abbrev checker : VersionCompatibilityChecker releases
checker = record { current_version = v2_1_0; min_version = v1_5_0; available_deltas = known_deltas }

checker_made : new releases ≡ some checker
unfolding new unwrapped
checker_made = refl

-- From the oldest version that is compatible, the patch is the whole model: the file is that of the
-- full model, but the offer says that it is none.
abbrev mislabelled : ModelDelta
mislabelled = record {
  target_version = "2.1.0";
  is_full_model = false;
  download_url = "https://models.msaidizi.app/full/model-2.1.0.bin";
  checksum = "sha256:full789model012";
  size_bytes = 15000000;
  min_protocol_version = 2;
}

oldest_patched : check_and_prepare_delta releases checker (some "1.5.0") ≡ some mislabelled
unfolding check_and_prepare_delta prepare patch_or_full patch_for
oldest_patched = refl

whole_file : (full_model releases "" checker).download_url ≡ mislabelled.download_url
whole_file = refl

too_old : is_compatible releases checker "1.0.0" ≡ false
unfolding is_compatible at_least_min
too_old = refl

up_to_date : check_and_prepare_delta releases checker (some "2.1.0") ≡ none
unfolding check_and_prepare_delta prepare
up_to_date = refl

-- A device at 2.0.0.
check_and_prepare_delta-settles_example :
    ((outdated releases checker (some v2_0_0) ≡ false)
      × (check_and_prepare_delta releases checker (some "2.0.0") ≡ none))
    ⊎ ((outdated releases checker (some v2_0_0) ≡ true)
        × ((d : ModelDelta) × (check_and_prepare_delta releases checker (some "2.0.0") ≡ some d)
            × (d.is_full_model ≡ false → is_compatible releases checker "2.0.0" ≡ true)
            × (check_and_prepare_delta releases checker (some d.target_version) ≡ none)))
check_and_prepare_delta-settles_example =
    check_and_prepare_delta-settles releases checker "2.0.0" checker_made
