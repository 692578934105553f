-- ===== src/Cinder/Driver.antt =====
-- driver.py: the state of the driver, the SVM of a volume and its export.
use arca_storage.Base.{
  ℕ, Bool, Option, none, some, List, [], ◌∷◌, ◌++◌, Text, codes, is_empty, list_eqb, nat_order,
  if◌then◌else◌,
}
use arca_storage.Results.{Result, ok, err}
use arca_storage.Services.Qos.IoMax.{Limits}
use arca_storage.Cinder.{Fault, backend_error, other_error, Node, Op, pure, ◌>>=◌, ◌>>◌}
use arca_storage.Cinder.Paths.{get_mount_point_for_svm}
use arca_storage.Cinder.Mounts.{mount_nfs, is_mounted}

-- What the driver reads of a volume; `extra_specs` are those of its type, where it has one, and
-- `context` is that of the object.
pub record Volume : Type 0 where
  pub id : Text
  pub name : Text
  pub size : ℕ
  pub extra_specs : Option (Text → Option Text)
  pub provider_location : Option Text
  pub context : Option Text

pub record Snapshot : Type 0 where
  pub id : Text
  pub volume_id : Text
  pub context : Option Text

-- The options that the driver reads.
pub record CinderConfig : Type 0 where
  pub svm_strategy : Text
  pub default_svm : Text
  pub nfs_server : Option Text
  pub use_api : Bool
  pub mount_point_base : Text
  pub mount_options : Text
  pub snapshot_copy_timeout : ℕ

-- The calls of the API's client; an SVM's answer is its `vip`, where it has one.
pub record CinderApi (W : Type 0) : Type 0 where
  pub get_svm : Text → W → Result (Unit {0}) (Option Text) × W
  pub apply_qos : Text → Text → Limits → W → Result (Unit {0}) (Unit {0}) × W

-- What the driver runs on: the machine, the client where there is one, and `db.volume_get`.
pub record Backing (W : Type 0) : Type 0 where
  pub node : Node W
  pub client : Option (CinderApi W)
  pub volume_get : Text → Text → W → Option Volume × W

-- The state: what is outside, `_svm_cache` with what an entry's `vip` is, and `_context`.
pub record Cinder (W : Type 0) : Type 0 where
  pub world : W
  pub svm_cache : Text → Option (Option Text)
  pub context : Option Text

abbrev pub on_node : {W A : Type 0} → Op W A → Op (Cinder W) A
on_node m s = let (r, w) = m s.world in (r, record s { world = w })

-- `if not x` of a text that may be missing
abbrev pub given : Option Text → Option Text
given none = none
given (some t) = if is_empty t then none else some t

abbrev pub spec_of : Option (Text → Option Text) → Text → Option Text
spec_of none key = none
spec_of (some specs) key = specs key

-- `_get_svm_for_volume`; the strategy of an SVM for each project is not there yet.
unfoldable pub get_svm_for_volume : CinderConfig → Volume → Result Fault Text
get_svm_for_volume cfg volume =
    if list_eqb cfg.svm_strategy (codes "shared")
    then ok cfg.default_svm
    else if list_eqb cfg.svm_strategy (codes "manual")
    then elim (given (spec_of volume.extra_specs (codes "arca_storage:svm_name"))) [
      | none ↦ err backend_error
      | some svm_name ↦ ok svm_name
    ]
    else err backend_error

abbrev pub export_of : Text → Text → Text
export_of server svm_name = server ++ (codes ":/exports/" ++ svm_name)

-- `svm_info["vip"]` in the export's path; an entry without it is a `KeyError`.
abbrev pub export_at : Option Text → Text → Result Fault Text
export_at none svm_name = err other_error
export_at (some vip) svm_name = ok (export_of vip svm_name)

module _ {W : Type 0} (b : Backing W) (cfg : CinderConfig) where
  -- `_get_svm_info`: what the client answers is kept.
  unfoldable pub get_svm_info : Text → Op (Cinder W) (Option Text)
  get_svm_info svm_name s = elim (s.svm_cache svm_name) [
    | some info ↦ (ok info, s)
    | none ↦ elim b.client [
      | none ↦ (err backend_error, s)
      | some client ↦
          let (r, w) = client.get_svm svm_name s.world in
          elim r [
            | err _ ↦ (err other_error, record s { world = w })
            | ok info ↦ (
              ok info,
              record s {
                world = w;
                svm_cache = λ x. if list_eqb x svm_name then some info else s.svm_cache x;
              },
            )
          ]
    ]
  ]

  -- `_get_export_path`
  unfoldable pub get_export_path : Text → Op (Cinder W) Text
  unfolding get_svm_info
  get_export_path svm_name s = elim (given cfg.nfs_server) [
    | some server ↦ (ok (export_of server svm_name), s)
    | none ↦
        if cfg.use_api
        then (let (r, s') = get_svm_info svm_name s in
            elim r [ err e ↦ (err e, s') | ok vip ↦ (export_at vip svm_name, s') ])
        else (err backend_error, s)
  ]

  -- The export of an SVM and its mount point, with the export mounted there.
  unfoldable pub mount_export : Text → Op (Cinder W) (Text × Text)
  unfolding get_export_path
  mount_export svm_name = do
    export_path ← get_export_path svm_name
    mount_point ← (λ s. (get_mount_point_for_svm cfg.mount_point_base svm_name, s))
    on_node (mount_nfs b.node export_path mount_point cfg.mount_options)
    pure (export_path, mount_point)

  -- The mount point of a volume's SVM, where the export is mounted unless something is.
  unfoldable pub mounted_svm : Volume → Op (Cinder W) Text
  mounted_svm volume = do
    svm_name ← (λ s. (get_svm_for_volume cfg volume, s))
    mount_point ← (λ s. (get_mount_point_for_svm cfg.mount_point_base svm_name, s))
    there ← on_node (λ w. let (r, w') = is_mounted b.node mount_point w in (ok r, w'))
    if there then pure tt else do
      export_path ← get_export_path svm_name
      on_node (mount_nfs b.node export_path mount_point cfg.mount_options)
    pure mount_point

  -- `_get_operation_context`: the first context of the objects, or the driver's.
  unfoldable pub get_operation_context : List (Option Text) → Op (Cinder W) Text
  get_operation_context [] s = elim s.context [ some c ↦ (ok c, s) | none ↦ (err backend_error, s) ]
  get_operation_context (some c ∷ cs) s = (ok c, s)
  get_operation_context (none ∷ cs) s = get_operation_context cs s

-- Every exception of an operation is raised again as a `VolumeBackendAPIException`.
abbrev pub as_backend : {S A : Type 0} → Op S A → Op S A
as_backend m s = let (r, s') = m s in (elim r [ ok a ↦ ok a | err _ ↦ err backend_error ], s')

abbrev pub volume_file_name : Text → Text
volume_file_name volume_id = codes "volume-" ++ volume_id

abbrev pub snapshot_file_name : Text → Text
snapshot_file_name snapshot_id = codes "snapshot-" ++ snapshot_id
