-- ===== src/Cinder/Mounts.antt =====
-- utils.py: the mounts of NFS exports.
pub mod Table
pub mod Again
mod Tests
use arca_storage.Base.{
  ℕ, Bool, true, false, not, ◌&&◌, ◌||◌, Option, none, some, List, [], ◌∷◌, ◌++◌, Text, codes,
  split, split_once, words, join, map, decimal, lower, has_text, is_empty, list_eqb, nat_order,
  contains, list_order, if◌then◌else◌,
}
use arca_storage.Results.{Result, ok, err}
use arca_storage.Host.{Completed, succeeded}
use arca_storage.Cinder.{
  Fault, storage_error, other_error, os_error, OsFault, Ran, finished, timed_out, not_run, Node, Op,
}

-- What `get_nfs_share_info` answers.
pub record ShareInfo : Type 0 where
  pub device : Text
  pub mount_point : Text
  pub fs_type : Text
  pub options : Text

-- A line of /proc/mounts about this mount point.
abbrev pub share_of : Text → List Text → Option ShareInfo
share_of mount_point (device ∷ place ∷ fs_type ∷ options ∷ _) =
    if list_eqb place mount_point
    then some
        (record { device = device; mount_point = place; fs_type = fs_type; options = options })
    else none
share_of mount_point _ = none

unfoldable pub find_share : Text → List Text → Option ShareInfo
find_share mount_point [] = none
find_share mount_point (line ∷ lines) =
    let rest = find_share mount_point lines in
    elim (share_of mount_point (words line)) [ some info ↦ some info | none ↦ rest ]

abbrev pub is_at : Text → List Text → Bool
is_at mount_point (device ∷ place ∷ _) = list_eqb place mount_point
is_at mount_point _ = false

unfoldable pub any_at : Text → List Text → Bool
any_at mount_point [] = false
any_at mount_point (line ∷ lines) = is_at mount_point (words line) || any_at mount_point lines

-- `str(e)` of a `CalledProcessError`, of arguments without quotes and backslashes
unfoldable pub str_of_error : List Text → Completed → Text
str_of_error cmd c =
    codes "Command '["
    ++ (join (codes ", ") (map (λ t. b'\'' ∷ (t ++ codes "'")) cmd)
        ++ (codes "]' returned non-zero exit status " ++ (decimal c.returncode ++ codes ".")))

-- `e.stderr or e.stdout or str(e)`
abbrev pub error_text : List Text → Completed → Text
error_text cmd c =
    if not (is_empty c.stderr)
    then c.stderr
    else if not (is_empty c.stdout)
    then c.stdout
    else str_of_error cmd c

abbrev pub mount_command : Text → Text → Text → Text → List Text
mount_command nfs_type mount_options export_path mount_point =
    codes "mount"
    ∷ codes "-t"
    ∷ nfs_type
    ∷ codes "-o"
    ∷ mount_options
    ∷ export_path
    ∷ mount_point
    ∷ []

-- "nfs4", unless the options ask for version 3
abbrev pub nfs_type_of : Text → Text
nfs_type_of mount_options =
    if has_text (codes "vers=3") mount_options || has_text (codes "nfsvers=3") mount_options
    then codes "nfs"
    else codes "nfs4"

abbrev pub has_device : Text → Option ShareInfo → Bool
has_device export_path none = false
has_device export_path (some info) = list_eqb info.device export_path

module _ {W : Type 0} (n : Node W) where
  unfoldable pub get_nfs_share_info : Text → W → Option ShareInfo
  unfolding find_share
  get_nfs_share_info mount_point w = elim (n.read_mounts w) [
    | none ↦ none
    | some text ↦ find_share mount_point (split 10 text)
  ]

  -- `is_mounted`; where /proc/mounts cannot be read, `mountpoint` is asked.
  unfoldable pub is_mounted : Text → W → Bool × W
  unfolding any_at
  is_mounted mount_point w = elim (n.read_mounts w) [
    | some text ↦ (any_at mount_point (split 10 text), w)
    | none ↦
        let (r, w') = n.run (codes "mountpoint" ∷ codes "-q" ∷ mount_point ∷ []) 5 w in
        (elim r [ finished c ↦ succeeded c | timed_out ↦ false | not_run ↦ false ], w')
  ]

  unfoldable pub ensure_mount_point_exists : Text → Op W (Unit {0})
  ensure_mount_point_exists mount_point w =
      let (r, w') = n.makedirs mount_point w in
      (elim r [ ok _ ↦ ok tt | err _ ↦ err storage_error ], w')

  -- What becomes of a `mount` that fails: another worker may have mounted the export.
  unfoldable pub mount_refused : List Text → Text → Text → Completed → W → Result Fault (Unit {0})
  unfolding get_nfs_share_info
  mount_refused cmd export_path mount_point c w =
      let message = lower (error_text cmd c) in
      if has_text (codes "already mounted") message || has_text (codes "busy") message
      then (if has_device export_path (get_nfs_share_info mount_point w)
          then ok tt
          else err storage_error)
      else err storage_error

  unfoldable pub run_mount : Text → Text → Text → Op W (Unit {0})
  unfolding mount_refused
  run_mount export_path mount_point mount_options w =
      let cmd = mount_command (nfs_type_of mount_options) mount_options export_path mount_point in
      let (r, w') = n.run cmd 30 w in
      (
        elim r [
          | finished c ↦
              if succeeded c then ok tt else mount_refused cmd export_path mount_point c w'
          | timed_out ↦ err storage_error
          | not_run ↦ err os_error
        ],
        w',
      )

  unfoldable pub mount_nfs : Text → Text → Text → Op W (Unit {0})
  unfolding ensure_mount_point_exists run_mount
  mount_nfs export_path mount_point mount_options w =
      let (made, w1) = ensure_mount_point_exists mount_point w in
      elim made [
        | err e ↦ (err e, w1)
        | ok _ ↦ elim (get_nfs_share_info mount_point w1) [
          | some info ↦ (if list_eqb info.device export_path then ok tt else err storage_error, w1)
          | none ↦ run_mount export_path mount_point mount_options w1
        ]
      ]

  -- `lazy_unmount`
  unfoldable pub lazy_unmount : Text → Op W (Unit {0})
  lazy_unmount mount_point w =
      let cmd = codes "umount" ∷ codes "-l" ∷ mount_point ∷ [] in
      let (r, w') = n.run cmd 5 w in
      (
        elim r [
          | finished c ↦
              if succeeded c || has_text (codes "not mounted") (lower (error_text cmd c))
              then ok tt
              else err storage_error
          | timed_out ↦ err storage_error
          | not_run ↦ err os_error
        ],
        w',
      )

  -- What becomes of an `umount` that fails.
  unfoldable pub unmount_refused : List Text → Text → Bool → Completed → Op W (Unit {0})
  unfolding lazy_unmount
  unmount_refused cmd mount_point force c w =
      if has_text (codes "not mounted") (lower (error_text cmd c))
      then (ok tt, w)
      else if force
      then lazy_unmount mount_point w
      else (err storage_error, w)

  unfoldable pub unmount_nfs : Text → Bool → Op W (Unit {0})
  unfolding is_mounted unmount_refused lazy_unmount
  unmount_nfs mount_point force w =
      let (mounted, w1) = is_mounted mount_point w in
      if not mounted
      then (ok tt, w1)
      else let cmd = codes "umount" ∷ mount_point ∷ [] in
        let (r, w2) = n.run cmd 10 w1 in
        elim r [
          | finished c ↦
              if succeeded c then (ok tt, w2) else unmount_refused cmd mount_point force c w2
          | timed_out ↦ if force then lazy_unmount mount_point w2 else (err storage_error, w2)
          | not_run ↦ (err os_error, w2)
        ]

  -- `cleanup_mount_point`: an empty directory is removed, and a failure passed over.
  unfoldable pub cleanup_mount_point : Text → W → W
  cleanup_mount_point mount_point w =
      if n.exists mount_point w && n.is_dir mount_point w
      then elim (n.is_empty_dir mount_point w) [ some true ↦ (n.rmdir mount_point w).1 | _ ↦ w ]
      else w

  -- `validate_nfs_export_accessible`
  unfoldable pub validate_nfs_export_accessible : Text → ℕ → W → Bool × W
  validate_nfs_export_accessible export_path timeout w = elim (split_once b':' export_path) [
    | none ↦ (false, w)
    | some (server, _) ↦
        let (r, w') = n.run (codes "showmount" ∷ codes "-e" ∷ server ∷ []) timeout w in
        (elim r [ finished c ↦ succeeded c | timed_out ↦ false | not_run ↦ false ], w')
  ]
