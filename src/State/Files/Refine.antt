-- ===== src/State/Files/Refine.antt =====
-- Each file is a finite map from keys to records, whatever operations are made.
use arca_storage.Base.{Option, List, [], ◌∷◌, Text, nat_order, list_order}
use arca_storage.State.Table.{find}
use arca_storage.State.Table.Sorted.{IsTable}
use arca_storage.State.Table.Update.{put-IsTable}
use arca_storage.State.Files.{
  Svm, Volume, Snapshot, Files, items_of, stamp, svm_key, volume_key, snapshot_key, is_svm,
  is_volume, is_snapshot, upsert_svm, delete_svm, upsert_volume, delete_volume, upsert_snapshot,
  delete_snapshot,
}
use arca_storage.State.Files.Keys.{is_svm_iff, is_volume_iff, is_snapshot_iff, removed-IsTable}

-- Every file is sorted by its keys, without duplicates.
pub record IsSane (files : Files) : Type 0 where
  pub svms : IsTable svm_key (items_of files.svms)
  pub volumes : IsTable volume_key (items_of files.volumes)
  pub snapshots : IsTable snapshot_key (items_of files.snapshots)

-- The record under a key.
abbrev pub svm_at : Files → Text → Option Svm
svm_at files name = find svm_key (name ∷ []) (items_of files.svms)

abbrev pub volume_at : Files → Text → Text → Option Volume
volume_at files svm name = find volume_key (svm ∷ name ∷ []) (items_of files.volumes)

abbrev pub snapshot_at : Files → Text → Text → Text → Option Snapshot
snapshot_at files svm volume name =
    find snapshot_key (svm ∷ volume ∷ name ∷ []) (items_of files.snapshots)

-- An update, with its time stamp, or a removal.
pub data Op : Type 0 where
  put_svm : Text → Svm → Op
  put_volume : Text → Volume → Op
  put_snapshot : Text → Snapshot → Op
  drop_svm : Text → Op
  drop_volume : Text → Text → Op
  drop_snapshot : Text → Text → Text → Op

unfoldable pub run_op : Op → Files → Files
run_op (put_svm now s) files = upsert_svm now s files
run_op (put_volume now v) files = upsert_volume now v files
run_op (put_snapshot now s) files = upsert_snapshot now s files
run_op (drop_svm name) files = (delete_svm name files).0
run_op (drop_volume svm name) files = (delete_volume svm name files).0
run_op (drop_snapshot svm volume name) files = (delete_snapshot svm volume name files).0

pub run_op-IsSane : (op : Op) (files : Files) → IsSane files → IsSane (run_op op files)
unfolding run_op upsert_svm upsert_volume upsert_snapshot delete_svm delete_volume delete_snapshot
run_op-IsSane (put_svm now s) files h = record {
  svms =
      put-IsTable svm_key (λ i r. is_svm r.name i) (λ i r. is_svm_iff r.name i)
        (record s { created_at = stamp now s.created_at }) (items_of files.svms) h.svms;
  volumes = h.volumes;
  snapshots = h.snapshots;
}
run_op-IsSane (put_volume now v) files h = record {
  svms = h.svms;
  volumes =
      put-IsTable volume_key (λ i r. is_volume r.svm r.name i) (λ i r. is_volume_iff r.svm r.name i)
        (record v { created_at = stamp now v.created_at }) (items_of files.volumes) h.volumes;
  snapshots = h.snapshots;
}
run_op-IsSane (put_snapshot now s) files h = record {
  svms = h.svms;
  volumes = h.volumes;
  snapshots =
      put-IsTable snapshot_key (λ i r. is_snapshot r.svm r.volume r.name i)
        (λ i r. is_snapshot_iff r.svm r.volume r.name i)
        (record s { created_at = stamp now s.created_at }) (items_of files.snapshots) h.snapshots;
}
run_op-IsSane (drop_svm name) files h = record {
  svms = removed-IsTable svm_key (is_svm name) (name ∷ []) (is_svm_iff name) files.svms h.svms;
  volumes = h.volumes;
  snapshots = h.snapshots;
}
run_op-IsSane (drop_volume svm name) files h = record {
  svms = h.svms;
  volumes =
      removed-IsTable volume_key (is_volume svm name) (svm ∷ name ∷ []) (is_volume_iff svm name)
        files.volumes h.volumes;
  snapshots = h.snapshots;
}
run_op-IsSane (drop_snapshot svm volume name) files h = record {
  svms = h.svms;
  volumes = h.volumes;
  snapshots =
      removed-IsTable snapshot_key (is_snapshot svm volume name) (svm ∷ volume ∷ name ∷ [])
        (is_snapshot_iff svm volume name) files.snapshots h.snapshots;
}

unfoldable pub run_ops : List Op → Files → Files
run_ops [] files = files
run_ops (op ∷ ops) files = run_ops ops (run_op op files)

-- Any sequence of updates and removals, of SVMs, volumes and snapshots, keeps each of the three
-- files sorted by its keys and free of duplicates.
pub run_ops-IsSane : (ops : List Op) (files : Files) → IsSane files → IsSane (run_ops ops files)
unfolding run_ops
run_ops-IsSane [] files h = h
run_ops-IsSane (op ∷ ops) files h = run_ops-IsSane ops (run_op op files) (run_op-IsSane op files h)
