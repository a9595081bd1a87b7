-- ===== src/VersionCompat.antt =====
-- rust-api/src/sync/version_compat.rs: `VersionCompatibilityChecker`. The crate semver is the interface
-- Semver, whose order is total, so that `>=` is the negation of `<`.
use angavu_intelligence_back.Common.{
  ℕ, ◌≡◌, Bool, true, false, not, Option, some, none, List, [], ◌∷◌, String, str_eq, if◌then◌else◌,
}
use Prim.Native.String.{◌++◌}
pub mod Offer
mod Tests

-- The versions of the crate semver: `below` is `<`, and a version is read back from its text.
pub record Semver : Type 1 where
  pub Version : Type 0
  pub parse : String → Option Version
  pub to_string : Version → String
  pub below : Version → Version → Bool
  pub parse-to_string : (v : Version) → parse (to_string v) ≡ some v
  pub below_irrefl : (v : Version) → below v v ≡ false

abbrev pub sync_protocol_version : ℕ
sync_protocol_version = 2

abbrev pub current_model_version : String
current_model_version = "2.1.0"

abbrev pub min_model_version : String
min_model_version = "1.5.0"

pub record ModelDelta : Type 0 where
  pub target_version : String
  pub is_full_model : Bool
  pub download_url : String
  pub checksum : String
  pub size_bytes : ℕ
  pub min_protocol_version : ℕ

pub record ModelDeltaEntry : Type 0 where
  pub from_version : String
  pub to_version : String
  pub download_url : String
  pub checksum : String
  pub size_bytes : ℕ

-- The entries that `new` puts in.
abbrev pub known_deltas : List ModelDeltaEntry
known_deltas =
    record {
      from_version = "2.0.0";
      to_version = "2.1.0";
      download_url = "https://models.msaidizi.app/deltas/2.0.0-to-2.1.0.patch";
      checksum = "sha256:abc123def456";
      size_bytes = 512000;
    }
    ∷ record {
      from_version = "1.5.0";
      to_version = "2.1.0";
      download_url = "https://models.msaidizi.app/full/model-2.1.0.bin";
      checksum = "sha256:full789model012";
      size_bytes = 15000000;
    }
    ∷ []

-- The first entry from the version that the device reports.
unfoldable pub patch_for : String → List ModelDeltaEntry → Option ModelDeltaEntry
patch_for device [] = none
patch_for device (delta ∷ deltas) =
    let rest = patch_for device deltas in
    if str_eq delta.from_version device then some delta else rest

abbrev pub patch : ModelDeltaEntry → ModelDelta
patch delta = record {
  target_version = delta.to_version;
  is_full_model = false;
  download_url = delta.download_url;
  checksum = delta.checksum;
  size_bytes = delta.size_bytes;
  min_protocol_version = sync_protocol_version;
}

module _ (semver : Semver) where
  pub record VersionCompatibilityChecker : Type 0 where
    pub current_version : semver.Version
    pub min_version : semver.Version
    pub available_deltas : List ModelDeltaEntry

  -- Both versions unwrapped: none is a panic.
  unfoldable pub unwrapped :
      Option semver.Version → Option semver.Version → Option VersionCompatibilityChecker
  unwrapped (some current) (some least) =
      some
        (record { current_version = current; min_version = least; available_deltas = known_deltas })
  unwrapped _ _ = none

  unfoldable pub new : Option VersionCompatibilityChecker
  unfolding unwrapped
  new = unwrapped (semver.parse current_model_version) (semver.parse min_model_version)

  -- The whole of the current model, with the checksum given.
  abbrev pub full_model : String → VersionCompatibilityChecker → ModelDelta
  full_model sum c = record {
    target_version = semver.to_string c.current_version;
    is_full_model = true;
    download_url =
        "https://models.msaidizi.app/full/model-" ++ (semver.to_string c.current_version ++ ".bin");
    checksum = sum;
    size_bytes = 15000000;
    min_protocol_version = sync_protocol_version;
  }

  -- The patch that was found, or the full model.
  unfoldable pub patch_or_full :
      VersionCompatibilityChecker → Option ModelDeltaEntry → Option ModelDelta
  patch_or_full c (some delta) = some (patch delta)
  patch_or_full c none = some (full_model "sha256:full_model_checksum" c)

  -- The answer for the version that was parsed, if one was.
  unfoldable pub prepare :
      VersionCompatibilityChecker → String → Option semver.Version → Option ModelDelta
  unfolding patch_or_full patch_for
  prepare c device none = some (full_model "unknown" c)
  prepare c device (some v) =
      if not (semver.below v c.current_version)
      then none
      else if semver.below v c.min_version
      then some (full_model "sha256:full_model_checksum" c)
      else patch_or_full c (patch_for device c.available_deltas)

  unfoldable pub check_and_prepare_delta :
      VersionCompatibilityChecker → Option String → Option ModelDelta
  unfolding prepare
  check_and_prepare_delta c none = none
  check_and_prepare_delta c (some device) = prepare c device (semver.parse device)

  unfoldable pub at_least_min : VersionCompatibilityChecker → Option semver.Version → Bool
  at_least_min c (some v) = not (semver.below v c.min_version)
  at_least_min c none = false

  unfoldable pub is_compatible : VersionCompatibilityChecker → String → Bool
  unfolding at_least_min
  is_compatible c version_str = at_least_min c (semver.parse version_str)
