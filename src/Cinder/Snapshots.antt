-- ===== src/Cinder/Snapshots.antt =====
-- driver.py: snapshots, and volumes made from them or from other volumes, as whole copies.
pub mod Sizes
use arca_storage.Base.{
  ℕ, ◌+◌, ◌-◌, ◌/◌, Bool, true, false, Option, none, some, List, [], ◌∷◌, Text, ltb, if◌then◌else◌,
}
use arca_storage.Results.{Result, ok, err}
use arca_storage.Cinder.{Fault, os_error, other_error, Node, Op, pure, raise, ◌>>=◌, ◌>>◌, os_call}
use arca_storage.Cinder.Paths.{join_path}
use arca_storage.Cinder.Files.{gib, copy_sparse_file, extend_volume_file}
use arca_storage.Cinder.Driver.{
  Volume, Snapshot, CinderConfig, Backing, Cinder, on_node, get_svm_for_volume, mount_export,
  get_operation_context, as_backend, volume_file_name, snapshot_file_name,
}

-- `(snapshot_size_bytes + gib - 1) // gib`
abbrev pub size_in_gib : ℕ → ℕ
size_in_gib size_bytes = (size_bytes + gib - 1) / gib

module _ {W : Type 0} (b : Backing W) (cfg : CinderConfig) where
  -- `self.db.volume_get(context, volume_id)`
  abbrev pub get_volume : Text → Text → Op (Cinder W) Volume
  get_volume context volume_id s =
      let (r, w) = b.volume_get context volume_id s.world in
      (elim r [ some v ↦ ok v | none ↦ err other_error ], record s { world = w })

  -- The export of a volume's SVM, mounted.
  unfoldable pub mount_for : Volume → Op (Cinder W) (Text × Text)
  mount_for volume = do
    svm_name ← (λ s. (get_svm_for_volume cfg volume, s))
    mount_export b cfg svm_name

  -- `create_snapshot`; `suffix` is what `secrets.token_hex` draws.
  unfoldable pub create_snapshot : Text → Snapshot → Op (Cinder W) (Unit {0})
  create_snapshot suffix snapshot = as_backend (do
    context ← get_operation_context b cfg (snapshot.context ∷ [])
    volume ← get_volume context snapshot.volume_id
    mounted ← mount_for volume
    on_node (
        copy_sparse_file b.node suffix (join_path mounted.1 (volume_file_name snapshot.volume_id))
          (join_path mounted.1 (snapshot_file_name snapshot.id)) cfg.snapshot_copy_timeout))

  -- `delete_snapshot`: a file that is not there is deleted already.
  unfoldable pub delete_snapshot : Snapshot → Op (Cinder W) (Unit {0})
  delete_snapshot snapshot = as_backend (do
    context ← get_operation_context b cfg (snapshot.context ∷ [])
    volume ← get_volume context snapshot.volume_id
    mounted ← mount_for volume
    on_node (λ w.
        let snapshot_file = join_path mounted.1 (snapshot_file_name snapshot.id) in
        if b.node.exists snapshot_file w
        then os_call (b.node.remove snapshot_file) w
        else (ok tt, w)))

  -- `os.path.getsize`
  abbrev pub size_of_file : Text → Op W ℕ
  size_of_file path w = (elim (b.node.get_size path w) [ some n ↦ ok n | none ↦ err os_error ], w)

  -- The volume file of a snapshot's copy, extended where the volume is to be larger.
  unfoldable pub volume_from_copy : Text → Volume → Snapshot → Text → Op W (Unit {0})
  volume_from_copy suffix volume snapshot mount_point = do
    copy_sparse_file b.node suffix (join_path mount_point (snapshot_file_name snapshot.id))
        (join_path mount_point (volume_file_name volume.id)) cfg.snapshot_copy_timeout
    size_bytes ← size_of_file (join_path mount_point (snapshot_file_name snapshot.id))
    if ltb (size_in_gib size_bytes) volume.size
        then extend_volume_file b.node mount_point (volume_file_name volume.id) volume.size
        else pure tt

  -- `create_volume_from_snapshot`: the provider location.
  unfoldable pub create_volume_from_snapshot : Text → Volume → Snapshot → Op (Cinder W) Text
  unfolding volume_from_copy
  create_volume_from_snapshot suffix volume snapshot = as_backend (do
    context ← get_operation_context b cfg (snapshot.context ∷ volume.context ∷ [])
    source_volume ← get_volume context snapshot.volume_id
    mounted ← mount_for source_volume
    on_node (volume_from_copy suffix volume snapshot mounted.1)
    pure mounted.0)

  -- `create_cloned_volume`: the provider location.
  unfoldable pub create_cloned_volume : Text → Volume → Volume → Op (Cinder W) Text
  create_cloned_volume suffix volume src_vref = as_backend (do
    mounted ← mount_for src_vref
    on_node (
        copy_sparse_file b.node suffix (join_path mounted.1 (volume_file_name src_vref.id))
          (join_path mounted.1 (volume_file_name volume.id)) cfg.snapshot_copy_timeout)
    if ltb src_vref.size volume.size
        then on_node (extend_volume_file b.node mounted.1 (volume_file_name volume.id) volume.size)
        else pure tt
    pure mounted.0)
