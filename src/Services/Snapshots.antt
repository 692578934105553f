-- ===== src/Services/Snapshots.antt =====
-- snapshot_service.py
pub mod Laws
pub mod Format
use arca_storage.Base.{
  ℕ, Bool, true, Option, none, some, List, [], ◌∷◌, Text, codes, rstrip_slash, take, nat_eqb,
  if◌then◌else◌,
}
use arca_storage.Results.{Error, snapshot_not_found, ok, or_raise}
use arca_storage.Validators.{validate_name}
use arca_storage.Actions.{Action, pure, lift, ◌>>=◌, ◌>>◌}
use arca_storage.State.Files.{
  Volume, Snapshot, Files, upsert_volume, upsert_snapshot, list_snapshots,
}
use arca_storage.State.Files as F
use arca_storage.Host.{Host}
use arca_storage.Host.Lvm
use arca_storage.Host.Xfs
use arca_storage.Services.{
  StorageConfig, Store, on_host, update_files, mount_path_of, volume_lv, snapshot_lv,
}

-- SnapshotCreate of api/models.py
pub record SnapshotCreate : Type 0 where
  pub name : Text
  pub svm : Text
  pub volume : Text

-- VolumeCloneCreate of api/models.py
pub record VolumeCloneCreate : Type 0 where
  pub name : Text
  pub svm : Text
  pub snapshot : Text
  pub size_gib : Option ℕ

-- `snapshots[0]`, where there is one
abbrev pub first_of_list : List Snapshot → Option Snapshot
first_of_list [] = none
first_of_list (s ∷ ss) = some s

-- The size that is asked for, or 10.
abbrev pub size_or_default : Option ℕ → ℕ
size_or_default none = 10
size_or_default (some n) = if nat_eqb n 0 then 10 else n

module _ {W : Type 0} (h : Host W) (cfg : StorageConfig) where
  unfoldable pub create_snapshot : Text → SnapshotCreate → Action (Store W) Snapshot
  create_snapshot now d = do
    lift (validate_name d.name)
    lift (validate_name d.svm)
    lift (validate_name d.volume)
    let source_lv = volume_lv d.svm d.volume
    let snap_lv = snapshot_lv d.svm d.volume d.name
    snap_path ← on_host (Lvm.create_snapshot_lv h cfg.vg_name source_lv snap_lv)
    let snapshot : Snapshot = record {
      svm = d.svm;
      volume = d.volume;
      name = d.name;
      lv_path = snap_path;
      lv_name = snap_lv;
      status = codes "available";
      created_at = some now;
    }
    update_files (upsert_snapshot now snapshot)
    pure snapshot

  unfoldable pub delete_snapshot : Text → Text → Text → Action (Store W) (Unit {0})
  delete_snapshot name svm volume = do
    lift (validate_name name)
    lift (validate_name svm)
    lift (validate_name volume)
    on_host (Lvm.delete_snapshot_lv h cfg.vg_name (snapshot_lv svm volume name))
    update_files (λ files. (F.delete_snapshot svm volume name files).0)

  -- The snapshot that is cloned: the first one of that name in the SVM.
  abbrev pub find_snapshot : VolumeCloneCreate → Action (Store W) Snapshot
  find_snapshot d s = (
    or_raise (first_of_list (list_snapshots (some d.svm) none (some d.snapshot) s.files))
        (snapshot_not_found d.snapshot d.svm),
    s,
  )

  -- The clone is a snapshot of the snapshot, and is not formatted.
  unfoldable pub clone_volume_from_snapshot : Text → VolumeCloneCreate → Action (Store W) Volume
  clone_volume_from_snapshot now d = do
    lift (validate_name d.name)
    lift (validate_name d.svm)
    lift (validate_name d.snapshot)
    let mount_path = mount_path_of (rstrip_slash cfg.export_dir) d.svm d.name
    snapshot ← find_snapshot d
    let snap_lv = snapshot_lv d.svm snapshot.volume d.snapshot
    let new_lv = volume_lv d.svm d.name
    clone_lv_path ← on_host (Lvm.create_snapshot_lv h cfg.vg_name snap_lv new_lv)
    on_host (Xfs.mount_xfs h clone_lv_path mount_path)
    let volume : Volume = record {
      svm = d.svm;
      name = d.name;
      size_gib = size_or_default d.size_gib;
      thin = true;
      fs_type = codes "xfs";
      mount_path = mount_path;
      lv_path = clone_lv_path;
      lv_name = new_lv;
      status = codes "available";
      created_at = some now;
    }
    update_files (upsert_volume now volume)
    pure volume

unfoldable pub list_snapshots_page :
    Option Text → Option Text → Option Text → ℕ → Files → List Snapshot
list_snapshots_page svm volume name limit files = take limit (list_snapshots svm volume name files)
