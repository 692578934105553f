-- ===== src/Cinder/Mounts/Tests.antt =====
-- Mounts on a machine that is known by its table of mounts.
use arca_storage.Base.{
  has_text, ℕ, ◌≡◌, refl, ◌∙◌, inl, inr, Bool, Bool-cases, true, false, none, some, List, [], ◌∷◌,
  ◌++◌, Text, codes, All, filter, filter-append, list_eqb, nat_order, split, split_words, arith,
}
use arca_storage.Results.{Result, ok}
use arca_storage.Host.{Completed, succeeded}
use arca_storage.Cinder.{Fault, Ran, finished, not_run, OsFault, Node}
use arca_storage.Cinder.Mounts.{find_share, mount_nfs}
use arca_storage.Cinder.Mounts.Table.{Entry, is_written, IsWritten, print}
use arca_storage.Cinder.Mounts.Again.{Mounting, IsMounted, mount_nfs-IsMounted}

abbrev exits : ℕ → Ran
exits code = finished (record { returncode = code; stdout = []; stderr = [] })

-- What the kernel shows.
abbrev table : List Entry → List Entry
table w = filter is_written w

-- A mount with a field that has no words is refused.
abbrev mount_if : Bool → Entry → List Entry → Ran × List Entry
mount_if true e w = (exits 0, w ++ e ∷ [])
mount_if false e w = (exits 32, w)

abbrev entry_of : Text → Text → Text → Text → Entry
entry_of nfs_type options export_path mount_point = record {
  device = export_path;
  place = mount_point;
  fs_type = nfs_type;
  options = options;
}

abbrev run_mount_only : List Text → ℕ → List Entry → Ran × List Entry
run_mount_only (_ ∷ _ ∷ nfs_type ∷ _ ∷ options ∷ export_path ∷ mount_point ∷ []) _ w =
    let e = entry_of nfs_type options export_path mount_point in mount_if (is_written e) e w
run_mount_only _ _ w = (not_run, w)

abbrev done : List Entry → Result OsFault (Unit {0}) × List Entry
done w = (ok tt, w)

abbrev machine : Node (List Entry)
machine = record {
  run = run_mount_only;
  exists = λ p w. true;
  is_link = λ p w. false;
  is_file = λ p w. false;
  is_dir = λ p w. true;
  is_empty_dir = λ p w. some true;
  read_mounts = λ w. some (print (table w));
  get_size = λ p w. none;
  makedirs = λ p w. done w;
  rmdir = λ p w. done w;
  open_excl = λ p w. done w;
  ftruncate = λ p size w. done w;
  chmod = λ p w. done w;
  fsync = λ p w. done w;
  fsync_dir = λ p w. done w;
  link = λ p d w. done w;
  rename = λ p d w. done w;
  remove = λ p w. done w;
}

table-IsWritten : (w : List Entry) → All IsWritten (table w)
table-IsWritten [] = tt
table-IsWritten (e ∷ w) = elim (Bool-cases (is_written e)) [
  | inl h ↦ rw h (h, table-IsWritten w)
  | inr h ↦ rw h (table-IsWritten w)
]

mount_if-added :
    (b : Bool) (e : Entry) (w : List Entry) (c : Completed)
    → is_written e ≡ b
    → (mount_if b e w).0 ≡ finished c
    → succeeded c ≡ true
    → table (mount_if b e w).1 ≡ table w ++ e ∷ []
mount_if-added true e w c h k s = filter-append is_written w (e ∷ []) ∙ rw h refl
mount_if-added false e w c h k s = absurd (grind (arith, k, s))

abbrev mounting : Mounting machine
mounting = record {
  entries = table;
  shown = λ w. refl;
  written = table-IsWritten;
  is_direct = λ p. true;
  mounted = λ w nfs_type options export_path mount_point c plain plain_point direct h s.
      let e = entry_of nfs_type options export_path mount_point in
      (e, refl, refl, mount_if-added (is_written e) e w c refl h s);
  made_again = λ w mount_point h. refl;
  made_below = λ w nfs_type options export_path mount_point h. refl;
  mounts_kept = λ w p. refl;
}

abbrev share : Text
share = codes "10.0.0.5:/exports/a"

abbrev place : Text
place = codes "/mnt/svm_a"

-- The root file system is mounted before.
abbrev root_only : List Entry
root_only = entry_of (codes "xfs") (codes "rw") (codes "/dev/sda1") (codes "/") ∷ []

abbrev first_mount : Result Fault (Unit {0}) × List Entry
first_mount = mount_nfs machine share place (codes "rw") root_only

first_mount-ok : first_mount.0 ≡ ok tt
unfolding mount_nfs find_share print split split_words list_eqb has_text
first_mount-ok = refl

mount_nfs-IsMounted_example :
    IsMounted machine mounting share place first_mount.1
    × (mount_nfs machine share place (codes "rw") first_mount.1 ≡ (ok tt, first_mount.1))
mount_nfs-IsMounted_example =
    mount_nfs-IsMounted machine mounting share place (codes "rw") root_only refl refl refl
      first_mount-ok
