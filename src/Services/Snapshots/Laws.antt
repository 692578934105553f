-- ===== src/Services/Snapshots/Laws.antt =====
-- A request on a snapshot changes one record, and nothing where it fails.
use arca_storage.Base.{some, ◌≡◌, Text, arith}
use arca_storage.Results.{Error, ok, err}
use arca_storage.State.Files.{
  Volume, Snapshot, Files, upsert_volume, upsert_snapshot, list_snapshots,
}
use arca_storage.State.Files as F
use arca_storage.Host.{Host}
use arca_storage.Services.{StorageConfig, Store, Leaves, leaves, volume_lv, snapshot_lv}
use arca_storage.Services.Snapshots.{
  SnapshotCreate, VolumeCloneCreate, size_or_default, create_snapshot, delete_snapshot,
  clone_volume_from_snapshot,
}

-- The record of the snapshot asked for.
abbrev pub Snapped : Text → SnapshotCreate → Files → Snapshot → Files → Type 0
Snapped now d before v after =
    (after ≡ upsert_snapshot now v before)
    × (v.svm ≡ d.svm)
    × (v.volume ≡ d.volume)
    × (v.name ≡ d.name)
    × (v.lv_name ≡ snapshot_lv d.svm d.volume d.name)
    × (v.created_at ≡ some now)

-- The record of the new volume.
abbrev pub Cloned : Text → VolumeCloneCreate → Files → Volume → Files → Type 0
Cloned now d before v after =
    (after ≡ upsert_volume now v before)
    × (v.svm ≡ d.svm)
    × (v.name ≡ d.name)
    × (v.size_gib ≡ size_or_default d.size_gib)
    × (v.lv_name ≡ volume_lv d.svm d.name)
    × (v.created_at ≡ some now)

module _ {W : Type 0} (h : Host W) (cfg : StorageConfig) where
  create_snapshot-err :
      (now : Text) (d : SnapshotCreate) (s : Store W) (e : Error)
      → (create_snapshot h cfg now d s).0 ≡ err e
      → (create_snapshot h cfg now d s).1.files ≡ s.files
  unfolding create_snapshot
  create_snapshot-err now d s e failed = ground arith

  create_snapshot-ok :
      (now : Text) (d : SnapshotCreate) (s : Store W) (v : Snapshot)
      → (create_snapshot h cfg now d s).0 ≡ ok v
      → Snapped now d s.files v (create_snapshot h cfg now d s).1.files
  unfolding create_snapshot
  create_snapshot-ok now d s v done = ground arith

  delete_snapshot-err :
      (name svm volume : Text) (s : Store W) (e : Error)
      → (delete_snapshot h cfg name svm volume s).0 ≡ err e
      → (delete_snapshot h cfg name svm volume s).1.files ≡ s.files
  unfolding delete_snapshot
  delete_snapshot-err name svm volume s e failed = ground arith

  delete_snapshot-ok :
      (name svm volume : Text) (s : Store W)
      → (delete_snapshot h cfg name svm volume s).0 ≡ ok tt
      → (delete_snapshot h cfg name svm volume s).1.files
        ≡ (F.delete_snapshot svm volume name s.files).0
  unfolding delete_snapshot
  delete_snapshot-ok name svm volume s done = ground arith

  clone-err :
      (now : Text) (d : VolumeCloneCreate) (s : Store W) (e : Error)
      → (clone_volume_from_snapshot h cfg now d s).0 ≡ err e
      → (clone_volume_from_snapshot h cfg now d s).1.files ≡ s.files
  unfolding clone_volume_from_snapshot
  clone-err now d s e failed = ground arith

  clone-ok :
      (now : Text) (d : VolumeCloneCreate) (s : Store W) (v : Volume)
      → (clone_volume_from_snapshot h cfg now d s).0 ≡ ok v
      → Cloned now d s.files v (clone_volume_from_snapshot h cfg now d s).1.files
  unfolding clone_volume_from_snapshot
  clone-ok now d s v done = ground arith

  -- A snapshot request that raises leaves the state files as they were. A creation that returns has
  -- stored its answer, which is the record of the snapshot asked for; a removal has removed the
  -- snapshot's record; and a clone has stored its answer, which is the record of the new volume, in
  -- the SVM and with the name and the size asked for, and with the logical volume of that name.
  pub snapshot_requests-files :
      (now name svm volume : Text) (d : SnapshotCreate) (c : VolumeCloneCreate) (s : Store W)
      → Leaves
          (Snapped now d s.files)
          s.files
          (create_snapshot h cfg now d s).0
          (create_snapshot h cfg now d s).1.files
        × Leaves
            (λ u after. after ≡ (F.delete_snapshot svm volume name s.files).0)
            s.files
            (delete_snapshot h cfg name svm volume s).0
            (delete_snapshot h cfg name svm volume s).1.files
        × Leaves
            (Cloned now c s.files)
            s.files
            (clone_volume_from_snapshot h cfg now c s).0
            (clone_volume_from_snapshot h cfg now c s).1.files
  snapshot_requests-files now name svm volume d c s = (
    leaves _ (create_snapshot h cfg now d s).0 (create_snapshot-err now d s)
        (create_snapshot-ok now d s),
    leaves _ (delete_snapshot h cfg name svm volume s).0 (delete_snapshot-err name svm volume s)
        (λ u. delete_snapshot-ok name svm volume s),
    leaves _ (clone_volume_from_snapshot h cfg now c s).0 (clone-err now c s) (clone-ok now c s),
  )
