-- ===== src/VersionCompat/Offer.antt =====
-- What a device is offered, and that it is up to date afterwards.
use angavu_intelligence_back.Common.{
  ◌≡◌, ◌⊎◌, inl, inr, refl, ◌∙◌, ap, subst, Bool, true, false, Option, some, none, List, [], ◌∷◌,
  String, str_eq, Bool-cases, Option-cases, All,
}
use angavu_intelligence_back.VersionCompat.{
  Semver, ModelDelta, ModelDeltaEntry, known_deltas, patch_for, patch, current_model_version,
  min_model_version, VersionCompatibilityChecker, unwrapped, new, full_model, patch_or_full,
  prepare, check_and_prepare_delta, at_least_min, is_compatible,
}

-- All entries lead to the version.
abbrev LeadTo : String → List ModelDeltaEntry → Type 0
LeadTo t deltas = All (λ (e : ModelDeltaEntry). e.to_version ≡ t) deltas

patch_for-LeadTo :
    (t device : String) (deltas : List ModelDeltaEntry) (e : ModelDeltaEntry)
    → LeadTo t deltas
    → patch_for device deltas ≡ some e
    → e.to_version ≡ t
unfolding patch_for
patch_for-LeadTo t device [] e lead = λ found. cc
patch_for-LeadTo t device (d ∷ deltas) e lead = elim (Bool-cases (str_eq d.from_version device)) [
  | inl same ↦ rw same (λ found. cc (found, lead.0))
  | inr other ↦ rw other (patch_for-LeadTo t device deltas e lead.1)
]

module _ (semver : Semver) where
  -- The device's version cannot be read, or is before the current one.
  abbrev pub outdated : VersionCompatibilityChecker semver → Option semver.Version → Bool
  outdated c none = true
  outdated c (some v) = semver.below v c.current_version

  -- What `new` makes.
  record Made (c : VersionCompatibilityChecker semver) : Type 0 where
    current : semver.parse current_model_version ≡ some c.current_version
    lead : LeadTo current_model_version c.available_deltas

  unwrapped-Made :
      (a b : Option semver.Version) (c : VersionCompatibilityChecker semver)
      → semver.parse current_model_version ≡ a
      → unwrapped semver a b ≡ some c
      → Made c
  unfolding unwrapped
  unwrapped-Made none b c p h = cc
  unwrapped-Made (some a) none c p h = cc
  unwrapped-Made (some a) (some b) c p h =
      let same : ◌≡◌ {A = VersionCompatibilityChecker semver}
          (record { current_version = a; min_version = b; available_deltas = known_deltas }) c =
        cc in
      subst Made same (record { current = p; lead = (refl, (refl, tt)) })

  new-Made : (c : VersionCompatibilityChecker semver) → new semver ≡ some c → Made c
  unfolding new
  new-Made c =
      unwrapped-Made (semver.parse current_model_version) (semver.parse min_model_version) c refl

  -- A device that got this update needs no other.
  abbrev Settled : VersionCompatibilityChecker semver → ModelDelta → Type 0
  Settled c d = check_and_prepare_delta semver c (some d.target_version) ≡ none

  target_is_current :
      (c : VersionCompatibilityChecker semver) (d : ModelDelta)
      → semver.parse d.target_version ≡ some c.current_version
      → Settled c d
  unfolding check_and_prepare_delta prepare
  target_is_current c d e = rw (e, semver.below_irrefl c.current_version) refl

  full_model-Settled :
      (sum : String) (c : VersionCompatibilityChecker semver) → Settled c (full_model semver sum c)
  full_model-Settled sum c =
      target_is_current c (full_model semver sum c) (semver.parse-to_string c.current_version)

  patch-Settled :
      (c : VersionCompatibilityChecker semver) (device : String) (e : ModelDeltaEntry)
      → Made c
      → patch_for device c.available_deltas ≡ some e
      → Settled c (patch e)
  patch-Settled c device e m found = target_is_current c (patch e) (
      ap semver.parse
        (patch_for-LeadTo current_model_version device c.available_deltas e m.lead found)
      ∙ m.current)

  -- An update is offered that settles the device, and a patch only to a compatible version.
  abbrev pub Offered :
      VersionCompatibilityChecker semver → Option semver.Version → Option ModelDelta → Type 0
  Offered c v offer =
      (d : ModelDelta) × (offer ≡ some d)
      × (d.is_full_model ≡ false → at_least_min semver c v ≡ true)
      × Settled c d

  patch_or_full-Offered :
      (c : VersionCompatibilityChecker semver) (device : String) (v : semver.Version)
      → Made c
      → semver.below v c.min_version ≡ false
      → Offered c (some v) (patch_or_full semver c (patch_for device c.available_deltas))
  unfolding patch_or_full at_least_min
  patch_or_full-Offered c device v m old =
      elim (Option-cases (patch_for device c.available_deltas)) [
        | inl e ↦ rw e (
          full_model semver "sha256:full_model_checksum" c,
          refl,
          λ h. cc,
          full_model-Settled "sha256:full_model_checksum" c,
        )
        | inr (p, e) ↦ rw e (patch p, refl, λ h. rw old refl, patch-Settled c device p m e)
      ]

  prepare-Offered :
      (c : VersionCompatibilityChecker semver) (device : String) (v : Option semver.Version)
      → Made c
      → ((outdated c v ≡ false) × (prepare semver c device v ≡ none))
        ⊎ ((outdated c v ≡ true) × Offered c v (prepare semver c device v))
  unfolding prepare
  prepare-Offered c device none m =
      inr (refl, (full_model semver "unknown" c, refl, λ h. cc, full_model-Settled "unknown" c))
  prepare-Offered c device (some v) m = elim (Bool-cases (semver.below v c.current_version)) [
    | inl behind ↦ inr (
      behind,
      rw behind (elim (Bool-cases (semver.below v c.min_version)) [
        | inl old ↦ rw old (
          full_model semver "sha256:full_model_checksum" c,
          refl,
          λ h. cc,
          full_model-Settled "sha256:full_model_checksum" c,
        )
        | inr compatible ↦ rw compatible (patch_or_full-Offered c device v m compatible)
      ]),
    )
    | inr fresh ↦ inl (fresh, rw fresh refl)
  ]

-- The checker that `new` makes offers nothing to a device whose version is the current one or a later
-- one. To every other device that reports a version, readable or not, it offers an update, a patch
-- only if `is_compatible` holds of the version; and a device that then reports the version that the
-- update names is offered nothing more.
pub check_and_prepare_delta-settles :
    (semver : Semver) (c : VersionCompatibilityChecker semver) (device : String)
    → new semver ≡ some c
    → ((outdated semver c (semver.parse device) ≡ false)
        × (check_and_prepare_delta semver c (some device) ≡ none))
      ⊎ ((outdated semver c (semver.parse device) ≡ true)
          × ((d : ModelDelta) × (check_and_prepare_delta semver c (some device) ≡ some d)
              × (d.is_full_model ≡ false → is_compatible semver c device ≡ true)
              × (check_and_prepare_delta semver c (some d.target_version) ≡ none)))
unfolding check_and_prepare_delta is_compatible
check_and_prepare_delta-settles semver c device made =
    prepare-Offered semver c device (semver.parse device) (new-Made semver c made)
