-- ===== src/Cinder/Files.antt =====
-- utils.py: the files of volumes and snapshots.
pub mod Disk
pub mod Temp
pub mod Placed
pub mod Atomic
use arca_storage.Base.{
  ℕ, ◌*◌, Bool, true, false, not, ◌&&◌, ◌||◌, List, [], ◌∷◌, ◌++◌, Text, codes, decimal,
  if◌then◌else◌,
}
use arca_storage.Results.{Result, ok, err}
use arca_storage.Cinder.{
  Fault, storage_error, timeout_expired, called_process, os_error, backend_error, other_error,
  OsFault, file_exists, os_fault, Ran, Node, Op, pure, raise, ◌>>=◌, ◌>>◌, os_call, run_checked,
}
use arca_storage.Cinder.Paths.{join_path, dirname, basename}

-- `size_gb * 1024 * 1024 * 1024`
abbrev pub gib : ℕ
gib = 1073741824

abbrev pub cp_command : Text → Text → List Text
cp_command source_path temp_path =
    codes "cp" ∷ codes "--sparse=always" ∷ codes "--" ∷ source_path ∷ temp_path ∷ []

abbrev pub truncate_command : ℕ → Text → List Text
truncate_command size_bytes volume_file =
    codes "truncate" ∷ codes "-s" ∷ decimal size_bytes ∷ volume_file ∷ []

-- The temporary file of a copy; `random_suffix` is what `secrets.token_hex(8)` draws.
unfoldable pub temp_path_of : Text → Text → Text
temp_path_of dest_path random_suffix =
    join_path (dirname dest_path) (b'.' ∷ (basename dest_path ++ (codes ".tmp." ++ random_suffix)))

module _ {W : Type 0} (n : Node W) where
  -- `create_volume_file`: a file that cannot be extended stays as it is, empty.
  unfoldable pub create_volume_file : Text → Text → ℕ → Op W Text
  create_volume_file mount_point volume_name size_gb w =
      let volume_file = join_path mount_point volume_name in
      let (opened, w1) = n.open_excl volume_file w in
      elim opened [
        | err _ ↦ (err storage_error, w1)
        | ok _ ↦
            let (extended, w2) = n.ftruncate volume_file (size_gb * gib) w1 in
            elim extended [ err _ ↦ (err storage_error, w2) | ok _ ↦ (ok volume_file, w2) ]
      ]

  -- `delete_volume_file`: a failure is only logged.
  unfoldable pub delete_volume_file : Text → Text → W → W
  delete_volume_file mount_point volume_name w =
      let volume_file = join_path mount_point volume_name in
      if n.exists volume_file w then (n.remove volume_file w).1 else w

  -- `extend_volume_file`: an `OSError`, where there is no `truncate`, is not turned into another.
  unfoldable pub extend_volume_file : Text → Text → ℕ → Op W (Unit {0})
  extend_volume_file mount_point volume_name new_size_gb w =
      let volume_file = join_path mount_point volume_name in
      if not (n.exists volume_file w)
      then (err storage_error, w)
      else let (r, w') = run_checked n (truncate_command (new_size_gb * gib) volume_file) 10 w in
        (
          elim r [
            | ok _ ↦ ok tt
            | err e ↦ err (elim e [
              | timeout_expired ↦ storage_error
              | called_process ↦ storage_error
              | e' ↦ e'
            ])
          ],
          w',
        )

  -- `try: if os.path.exists(temp_path): os.remove(temp_path) ... except OSError: pass`
  unfoldable pub remove_temp : Text → W → W
  remove_temp temp_path w = if n.exists temp_path w then (n.remove temp_path w).1 else w

  -- A file system without hard links: the temporary file is renamed, unless the destination is
  -- there by now.
  unfoldable pub rename_unless_there : Text → Text → Op W (Unit {0})
  rename_unless_there temp_path dest_path w =
      if n.exists dest_path w
      then (err storage_error, w)
      else os_call (n.rename temp_path dest_path) w

  -- The inner `except` clauses, for an exception of `os.link` or of `os.unlink`.
  unfoldable pub not_linked : Text → Text → OsFault → Op W (Unit {0})
  unfolding rename_unless_there
  not_linked temp_path dest_path file_exists w = (err storage_error, w)
  not_linked temp_path dest_path os_fault w = rename_unless_there temp_path dest_path w

  -- The temporary file takes the destination's place by a hard link.
  unfoldable pub link_to : Text → Text → Op W (Unit {0})
  unfolding not_linked
  link_to temp_path dest_path w =
      let (linked, w1) = n.link temp_path dest_path w in
      elim linked [
        | err e ↦ not_linked temp_path dest_path e w1
        | ok _ ↦
            let (removed, w2) = n.remove temp_path w1 in
            elim removed [ err e ↦ not_linked temp_path dest_path e w2 | ok _ ↦ (ok tt, w2) ]
      ]

  -- The copy to the temporary file, made durable.
  unfoldable pub copy_to_temp : Text → Text → ℕ → Op W (Unit {0})
  copy_to_temp source_path temp_path timeout = do
    run_checked n (cp_command source_path temp_path) timeout
    os_call (n.chmod temp_path)
    os_call (n.fsync temp_path)

  -- The body of the outer `try`.
  unfoldable pub copy_and_place : Text → Text → Text → ℕ → Op W (Unit {0})
  unfolding copy_to_temp link_to
  copy_and_place source_path temp_path dest_path timeout = do
    copy_to_temp source_path temp_path timeout
    link_to temp_path dest_path
    os_call (n.fsync_dir (dirname dest_path))

  -- The outer `except` clauses: an `ArcaStorageException` passes them by.
  unfoldable pub clean_up_after : Text → Result Fault (Unit {0}) × W → Result Fault (Unit {0}) × W
  unfolding remove_temp
  clean_up_after temp_path (ok u, w) = (ok u, w)
  clean_up_after temp_path (err timeout_expired, w) = (err storage_error, remove_temp temp_path w)
  clean_up_after temp_path (err called_process, w) = (err storage_error, remove_temp temp_path w)
  clean_up_after temp_path (err os_error, w) = (err storage_error, remove_temp temp_path w)
  clean_up_after temp_path (err e, w) = (err e, w)

  -- `copy_sparse_file`
  unfoldable pub copy_sparse_file : Text → Text → Text → ℕ → Op W (Unit {0})
  unfolding copy_and_place clean_up_after
  copy_sparse_file random_suffix source_path dest_path timeout w =
      let temp_path = temp_path_of dest_path random_suffix in
      if not (n.exists source_path w)
      then (err storage_error, w)
      else if n.is_link source_path w || not (n.is_file source_path w)
      then (err storage_error, w)
      else if n.exists dest_path w
      then (err storage_error, w)
      else clean_up_after temp_path (copy_and_place source_path temp_path dest_path timeout w)
