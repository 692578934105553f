-- ===== src/Cinder/Volumes.antt =====
-- driver.py: the life of a volume, and its connections.
use arca_storage.Base.{ℕ, Option, none, some, Text, if◌then◌else◌}
use arca_storage.Results.{Result, ok, err}
use arca_storage.Cinder.{Fault, backend_error, Op, pure, ◌>>=◌}
use arca_storage.Cinder.Files.{create_volume_file, delete_volume_file, extend_volume_file}
use arca_storage.Cinder.Driver.{
  Volume, CinderConfig, Backing, Cinder, on_node, given, get_svm_for_volume, get_export_path,
  mount_export, mounted_svm, as_backend, volume_file_name,
}
use arca_storage.Cinder.Qos.{apply_qos_to_volume}

-- What `create_volume` keeps for its undoing: the SVM, and the path of a file that was made.
pub record CleanupState : Type 0 where
  pub svm_name : Option Text
  pub volume_file_path : Option Text

-- What `initialize_connection` answers.
pub record Connection : Type 0 where
  pub export : Text
  pub name : Text
  pub options : Text

module _ {W : Type 0} (b : Backing W) (cfg : CinderConfig) where
  -- `_cleanup_failed_volume`: what fails in it is only logged.
  unfoldable pub cleanup_failed_volume : CleanupState → Cinder W → Cinder W
  cleanup_failed_volume c s = elim (given c.svm_name) [
    | none ↦ s
    | some _ ↦ elim (given c.volume_file_path) [
      | none ↦ s
      | some path ↦
          if b.node.exists path s.world
          then record s { world = (b.node.remove path s.world).1 }
          else s
    ]
  ]

  -- The `except` clauses of `create_volume`.
  abbrev pub undone : CleanupState → Cinder W → Result Fault Text × Cinder W
  undone c s = (err backend_error, cleanup_failed_volume c s)

  -- `create_volume` on an SVM; after the file is made nothing can raise any more.
  unfoldable pub create_on_svm : Volume → Text → Op (Cinder W) Text
  unfolding cleanup_failed_volume
  create_on_svm volume svm_name s =
      let known : CleanupState = record { svm_name = some svm_name; volume_file_path = none } in
      let (m, s1) = mount_export b cfg svm_name s in
      elim m [
        | err _ ↦ undone known s1
        | ok (export_path, mount_point) ↦
            let (f, s2) =
              on_node
                (create_volume_file b.node mount_point (volume_file_name volume.id) volume.size)
                s1 in
            elim f [
              | err _ ↦ undone known s2
              | ok volume_file ↦ (ok export_path, apply_qos_to_volume b cfg volume s2)
            ]
      ]

  -- `create_volume`: the provider location.
  unfoldable pub create_volume : Volume → Op (Cinder W) Text
  unfolding create_on_svm
  create_volume volume s = elim (get_svm_for_volume cfg volume) [
    | err _ ↦ undone (record { svm_name = none; volume_file_path = none }) s
    | ok svm_name ↦ create_on_svm volume svm_name s
  ]

  -- `delete_volume`: the export stays mounted.
  unfoldable pub delete_volume : Volume → Op (Cinder W) (Unit {0})
  delete_volume volume = as_backend (do
    mount_point ← mounted_svm b cfg volume
    λ s. (
      ok tt,
      record s {
        world = delete_volume_file b.node mount_point (volume_file_name volume.id) s.world;
      },
    ))

  unfoldable pub extend_volume : Volume → ℕ → Op (Cinder W) (Unit {0})
  extend_volume volume new_size = as_backend (do
    mount_point ← mounted_svm b cfg volume
    on_node (extend_volume_file b.node mount_point (volume_file_name volume.id) new_size))

  abbrev pub connection_to : Volume → Text → Connection
  connection_to volume export_path = record {
    export = export_path;
    name = volume_file_name volume.id;
    options = cfg.mount_options;
  }

  -- `initialize_connection`: the export of the provider location, or that of the SVM.
  unfoldable pub initialize_connection : Volume → Op (Cinder W) Connection
  initialize_connection volume s = elim (given volume.provider_location) [
    | some export_path ↦ (ok (connection_to volume export_path), s)
    | none ↦
        as_backend
          (do
            svm_name ← (λ s'. (get_svm_for_volume cfg volume, s'))
            export_path ← get_export_path b cfg svm_name
            pure (connection_to volume export_path))
          s
  ]

  -- `terminate_connection`: the compute node unmounts.
  unfoldable pub terminate_connection : Volume → Cinder W → Cinder W
  terminate_connection volume s = s
