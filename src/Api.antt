-- ===== src/Api.antt =====
-- api/main.py: the endpoints, each of a request that its model has accepted. An answer keeps its
-- status and what is in it.
pub mod Statuses
use arca_storage.Base.{ℕ, Option, none, some, List, Text}
use arca_storage.Ganesha.{Config, World, Outside}
use arca_storage.Ganesha.Exports.{Listed}
use arca_storage.State.Files.{Svm, Volume, Snapshot, Files}
use arca_storage.Host.{Host}
use arca_storage.Services.{StorageConfig, Store}
use arca_storage.Services.Svms.{SvmAnswer, SvmCreate, SvmConfig, Site}
use arca_storage.Services.Svms as S
use arca_storage.Services.Volumes.{VolumeCreate}
use arca_storage.Services.Volumes as V
use arca_storage.Services.Snapshots.{SnapshotCreate, VolumeCloneCreate}
use arca_storage.Services.Snapshots as N
use arca_storage.Services.Exports.{ExportCreate, ExportAnswer}
use arca_storage.Services.Exports as E
use arca_storage.Services.Qos.{FileSystem, QosSettings}
use arca_storage.Services.Qos.IoMax.{Limits}
use arca_storage.Services.Qos as Q
use arca_storage.Api.Statuses.{clauses, Reply, answered, respond}

module _ {W : Type 0} (h : Host W) (sha256 : Text → ℕ) (o : Outside) (cfg : SvmConfig)
    (gcfg : Config) where
  unfoldable pub create_svm : Text → SvmCreate → Site W → Reply SvmAnswer × Site W
  create_svm now svm =
      respond (clauses 201 (some 400) none) (S.create_svm h sha256 o cfg gcfg now svm)

  -- `force` and `delete_volumes` are passed on, and not used.
  unfoldable pub delete_svm : Text → Site W → Reply (Unit {0}) × Site W
  delete_svm name =
      respond (clauses 200 (some 404) (some 409)) (S.delete_svm h sha256 o cfg gcfg name)

unfoldable pub list_svms : Option Text → ℕ → Files → Reply (List Svm)
list_svms name limit files = answered 200 (S.list_svms_page name limit files)

module _ {W : Type 0} (h : Host W) (cfg : StorageConfig) where
  unfoldable pub create_volume : Text → VolumeCreate → Store W → Reply Volume × Store W
  create_volume now volume =
      respond (clauses 201 (some 400) none) (V.create_volume h cfg now volume)

  unfoldable pub resize_volume : Text → Text → Text → ℕ → Store W → Reply Volume × Store W
  resize_volume now name svm new_size_gib =
      respond (clauses 200 (some 404) none) (V.resize_volume h cfg now name svm new_size_gib)

  -- `force` is passed on, and not used.
  unfoldable pub delete_volume : Text → Text → Store W → Reply (Unit {0}) × Store W
  delete_volume name svm = respond (clauses 200 (some 404) none) (V.delete_volume h cfg name svm)

  unfoldable pub create_snapshot : Text → SnapshotCreate → Store W → Reply Snapshot × Store W
  create_snapshot now snapshot =
      respond (clauses 201 (some 400) (some 409)) (N.create_snapshot h cfg now snapshot)

  -- `force` is passed on, and not used.
  unfoldable pub delete_snapshot : Text → Text → Text → Store W → Reply (Unit {0}) × Store W
  delete_snapshot name svm volume =
      respond (clauses 200 (some 404) (some 409)) (N.delete_snapshot h cfg name svm volume)

  -- The name in the path is not looked at.
  unfoldable pub clone_volume_from_snapshot :
      Text → Text → VolumeCloneCreate → Store W → Reply Volume × Store W
  clone_volume_from_snapshot now name clone =
      respond (clauses 201 (some 400) (some 404)) (N.clone_volume_from_snapshot h cfg now clone)

unfoldable pub list_volumes : Option Text → Option Text → ℕ → Files → Reply (List Volume)
list_volumes svm name limit files = answered 200 (V.list_volumes_page svm name limit files)

unfoldable pub list_snapshots :
    Option Text → Option Text → Option Text → ℕ → Files → Reply (List Snapshot)
list_snapshots svm volume name limit files =
    answered 200 (N.list_snapshots_page svm volume name limit files)

module _ (o : Outside) (cfg : Config) where
  unfoldable pub add_export : ExportCreate → World → Reply ExportAnswer × World
  add_export export = respond (clauses 201 (some 400) none) (E.add_export o cfg export)

  unfoldable pub remove_export : Text → Text → Text → World → Reply (Unit {0}) × World
  remove_export svm volume client =
      respond (clauses 200 (some 404) none) (E.remove_export o cfg svm volume client)

unfoldable pub list_exports :
    List Text → Option Text → Option Text → Option Text → ℕ → World → Reply (List Listed)
list_exports names svm volume client limit w =
    answered 200 (E.list_exports_page names svm volume client limit w)

module _ {W : Type 0} (h : Host W) (fs : FileSystem W) where
  unfoldable pub apply_qos_to_volume : Text → Text → Limits → Store W → Reply QosSettings × Store W
  apply_qos_to_volume name svm limits =
      respond (clauses 200 (some 400) (some 404)) (Q.apply_qos_to_volume h fs svm name limits)

  unfoldable pub remove_qos_from_volume : Text → Text → Store W → Reply (Unit {0}) × Store W
  remove_qos_from_volume name svm =
      respond (clauses 200 (some 400) (some 404)) (Q.remove_qos_from_volume h fs svm name)

  unfoldable pub get_qos_settings : Text → Text → Store W → Reply (Option QosSettings) × Store W
  get_qos_settings name svm =
      respond (clauses 200 (some 400) (some 404)) (Q.get_qos_settings h fs svm name)
