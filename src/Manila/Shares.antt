-- ===== src/Manila/Shares.antt =====
-- The life of a share and of its snapshots.
pub mod Volumes
pub mod Snapshots
pub mod Isolation
pub mod Tests
use arca_storage.Base.{
  ℕ, ℤ, Bool, true, false, not, ◌&&◌, ◌||◌, Option, none, some, List, [], ◌∷◌, ◌++◌, Text, codes,
  strip, is_empty, list_eqb, nat_order, parse_int, if◌then◌else◌,
}
use arca_storage.Results.{Result, ok, err}
use arca_storage.Manila.{
  ApiError, share_not_found, share_exists, snapshot_not_found, other, DriverError, raised,
  share_backend, manila_exception, share_resource_not_found, not_implemented,
}
use arca_storage.Manila.Svms.{
  NetworkAllocator, SvmApi, Driver, Answer, svm_name_of, allocate_per_project_svm,
}

-- What the driver reads of a share: the `arca_svm_name` of the containers that hold metadata, in
-- the order in which they are looked at, and the extra specs where there is a share type.
pub record Share : Type 0 where
  pub id : Text
  pub size : ℕ
  pub metadata : List (Option Text)
  pub project_id : Option Text
  pub extra_specs : Option (Text → Option Text)

pub record Snapshot : Type 0 where
  pub id : Text
  pub share_id : Text
  pub metadata : List (Option Text)
  pub share : Option Share

pub record QosLimits : Type 0 where
  pub read_iops : Option ℤ
  pub write_iops : Option ℤ
  pub read_bps : Option ℤ
  pub write_bps : Option ℤ

-- The calls of the API client on volumes and snapshots; a volume's answer is its `export_path`.
pub record ShareApi (W : Type 0) : Type 0 where
  pub create_volume : Text → Text → ℕ → W → Result ApiError (Option Text) × W
  pub get_volume : Text → Text → W → Result ApiError (Option Text) × W
  pub delete_volume : Text → Text → W → Result ApiError (Unit {0}) × W
  pub resize_volume : Text → Text → ℕ → W → Result ApiError (Unit {0}) × W
  pub create_snapshot : Text → Text → Text → W → Result ApiError (Option Text) × W
  pub delete_snapshot : Text → Text → Text → W → Result ApiError (Unit {0}) × W
  pub clone_volume_from_snapshot :
      Text → Text → Text → Text → ℕ → W → Result ApiError (Option Text) × W
  pub apply_qos : Text → Text → QosLimits → W → Result ApiError (Unit {0}) × W
  pub persist_share_metadata : Text → Text → W → W
  pub persist_snapshot_metadata : Text → Text → W → W

-- The options that the share operations read, with the strategy in effect.
pub record ShareConfig : Type 0 where
  pub strategy : Text
  pub default_svm : Text
  pub svm_prefix : Text

-- `_get_metadata_value(obj, "arca_svm_name")`: the first that is not blank, stripped
unfoldable pub get_metadata_value : List (Option Text) → Option Text
get_metadata_value [] = none
get_metadata_value (none ∷ values) = get_metadata_value values
get_metadata_value (some t ∷ values) =
    let rest = get_metadata_value values in if is_empty (strip t) then rest else some (strip t)

abbrev pub spec : Share → Text → Option Text
spec share key = elim share.extra_specs [ none ↦ none | some specs ↦ specs key ]

abbrev pub filled : Option Text → Option Text
filled none = none
filled (some t) = if is_empty t then none else some t

-- The SVM that `_get_svm_for_share` knows without the backend: `err` is a `ManilaException`.
unfoldable pub manual_svm : Share → Result DriverError Text
manual_svm share = elim (spec share (codes "arca_manila:svm_name")) [
  | none ↦ err manila_exception
  | some t ↦ if is_empty (strip t) then err manila_exception else ok (strip t)
]

-- `_get_svm_for_share` with `ensure_exists=False`
unfoldable pub get_svm_for_share : ShareConfig → Share → Result DriverError Text
unfolding get_metadata_value manual_svm
get_svm_for_share cfg share = elim (get_metadata_value share.metadata) [
  | some svm_name ↦ ok svm_name
  | none ↦
      if list_eqb cfg.strategy (codes "shared")
      then ok cfg.default_svm
      else if list_eqb cfg.strategy (codes "manual")
      then manual_svm share
      else if list_eqb cfg.strategy (codes "per_project")
      then elim (filled share.project_id) [
        | none ↦ err manila_exception
        | some project_id ↦ ok (svm_name_of cfg.svm_prefix project_id)
      ]
      else err manila_exception
]

abbrev pub needs_svm : ShareConfig → Share → Option Text
needs_svm cfg share = elim (get_metadata_value share.metadata) [
  | some _ ↦ none
  | none ↦ if list_eqb cfg.strategy (codes "per_project") then filled share.project_id else none
]

-- The same with `ensure_exists=True`: a project's SVM is made where there is none.
unfoldable pub ensure_svm_for_share :
    {W : Type 0}
    → NetworkAllocator W
    → SvmApi W
    → ShareConfig
    → Share
    → Driver W
    → Answer × Driver W
unfolding get_svm_for_share
ensure_svm_for_share net svms cfg share s = elim (needs_svm cfg share) [
  | some project_id ↦ allocate_per_project_svm net svms cfg.svm_prefix project_id s
  | none ↦ elim (get_svm_for_share cfg share) [
    | ok svm_name ↦ (ok (some svm_name), s)
    | err e ↦ (err e, s)
  ]
]

abbrev pub volume_of : Text → Text
volume_of share_id = codes "share-" ++ share_id

abbrev pub snapshot_of : Text → Text
snapshot_of snapshot_id = codes "snapshot-" ++ snapshot_id

-- `int(x) if x else None`; the outer `none` stands for its `ValueError`
abbrev pub int_or_none : Option Text → Option (Option ℤ)
int_or_none none = some none
int_or_none (some t) =
    if is_empty t then some none else elim (parse_int t) [ none ↦ none | some n ↦ some (some n) ]

abbrev pub limits :
    Option (Option ℤ) → Option (Option ℤ) → Option (Option ℤ) → Option (Option ℤ) → Option QosLimits
limits (some a) (some b) (some c) (some d) =
    some (record { read_iops = a; write_iops = b; read_bps = c; write_bps = d })
limits _ _ _ _ = none

abbrev pub is_given : Option Text → Bool
is_given none = false
is_given (some t) = not (is_empty t)

-- `_apply_qos_to_share`: what fails in it is only logged.
unfoldable pub apply_qos_to_share : {W : Type 0} → ShareApi W → Share → Text → Text → W → W
apply_qos_to_share api share volume_name svm_name w =
    let read_iops = spec share (codes "arca_manila:read_iops_sec") in
    let write_iops = spec share (codes "arca_manila:write_iops_sec") in
    let read_bps = spec share (codes "arca_manila:read_bytes_sec") in
    let write_bps = spec share (codes "arca_manila:write_bytes_sec") in
    if not (is_given read_iops || is_given write_iops || is_given read_bps || is_given write_bps)
    then w
    else elim (limits (int_or_none read_iops) (int_or_none write_iops) (int_or_none read_bps)
        (int_or_none write_bps)) [ none ↦ w | some l ↦ (api.apply_qos volume_name svm_name l w).1 ]
