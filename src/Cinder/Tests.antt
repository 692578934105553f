-- ===== src/Cinder/Tests.antt =====
-- Runs of the Cinder driver on a small machine, whose files are known by their sizes.
use arca_storage.Base.{
  ℕ, ℤ, pos, negsuc, ◌*◌, ◌≡◌, ◌≢◌, refl, ◌∙◌, ◌⊎◌, inl, inr, Bool, true, false, Option, none, some,
  List, [], ◌∷◌, Text, codes, decimal, parse_int, list_eqb, nat_order, list_eqb_iff, eqb_refl,
  Bool-cases, Option-cases, if◌then◌else◌, ltb, decimal_digits, rstrip_by, arith,
}
use arca_storage.Numerals.{parse_int-int_text}
use arca_storage.Results.{Result, ok, err}
use arca_storage.Cinder.{
  Fault, Ran, finished, not_run, OsFault, file_exists, os_fault, Node, run_checked,
}
use arca_storage.Cinder.Paths.{join_path, basename, dirname, get_mount_point_for_svm}
use arca_storage.Cinder.Paths.MountPoints.{get_mount_point_for_svm-apart}
use arca_storage.Cinder.Files.{
  gib, truncate_command, temp_path_of, copy_sparse_file, extend_volume_file,
}
use arca_storage.Cinder.Files.Disk.{Disk}
use arca_storage.Cinder.Files.Atomic.{IsAtomic, copy_sparse_file-IsAtomic}
use arca_storage.Cinder.Files.Temp.{temp_path_of-other}
use arca_storage.Validators.{matches_name, matches_tail}
use arca_storage.Cinder.Mounts.{str_of_error}
use arca_storage.Cinder.Qos.{int_spec, unless_given, get_qos_specs}
use arca_storage.Cinder.Qos.Total.{get_qos_specs-total}
use arca_storage.Cinder.Driver.{Volume, Snapshot, CinderConfig, Backing}
use arca_storage.Cinder.Snapshots.{volume_from_copy}
use arca_storage.Cinder.Snapshots.Sizes.{Sizing, volume_from_copy-size}

-- The size of the file at each path.
abbrev Sized : Type 0
Sized = Text → Option ℕ

abbrev is_some : Option ℕ → Bool
is_some none = false
is_some (some _) = true

abbrev put : Text → Option ℕ → Sized → Sized
put p v w q = if list_eqb q p then v else w q

abbrev exits : ℕ → Ran
exits code = finished (record { returncode = code; stdout = []; stderr = [] })

abbrev truncated_to : Option ℤ → Text → Sized → Ran × Sized
truncated_to (some (pos bytes)) path w = (exits 0, put path (some bytes) w)
truncated_to (some (negsuc _)) path w = (exits 1, w)
truncated_to none path w = (exits 1, w)

-- `cp` has five words, and `truncate` four.
abbrev run_command : List Text → ℕ → Sized → Ran × Sized
run_command (_ ∷ _ ∷ _ ∷ source ∷ temp ∷ []) _ w = (exits 0, put temp (w source) w)
run_command (_ ∷ _ ∷ bytes ∷ path ∷ []) _ w = truncated_to (parse_int bytes) path w
run_command _ _ w = (not_run, w)

abbrev done : Sized → Result OsFault (Unit {0}) × Sized
done w = (ok tt, w)

abbrev unless_there : Text → Option ℕ → Sized → Result OsFault (Unit {0}) × Sized
unless_there p v w = if is_some (w p) then (err file_exists, w) else done (put p v w)

abbrev if_there : Text → Sized → Sized → Result OsFault (Unit {0}) × Sized
if_there p w' w = if is_some (w p) then done w' else (err os_fault, w)

abbrev machine : Node Sized
machine = record {
  run = run_command;
  exists = λ p w. is_some (w p);
  is_link = λ p w. false;
  is_file = λ p w. is_some (w p);
  is_dir = λ p w. false;
  is_empty_dir = λ p w. none;
  read_mounts = λ w. none;
  get_size = λ p w. w p;
  makedirs = λ p w. done w;
  rmdir = λ p w. done w;
  open_excl = λ p w. unless_there p (some 0) w;
  ftruncate = λ p size w. if_there p (put p (some size) w) w;
  chmod = λ p w. done w;
  fsync = λ p w. done w;
  fsync_dir = λ p w. done w;
  link = λ p d w. unless_there d (w p) w;
  rename = λ p d w. if_there p (put d (w p) (put p none w)) w;
  remove = λ p w. if_there p (put p none w) w;
}

put-other : (p : Text) (v : Option ℕ) (w : Sized) (q : Text) → q ≢ p → put p v w q ≡ w q
put-other p v w q h = elim (Bool-cases (list_eqb q p)) [
  | inl e ↦ absurd (h ((list_eqb_iff q p).0 e))
  | inr e ↦ rw e refl
]

put-same : (p : Text) (v : Option ℕ) (w : Sized) → put p v w p ≡ v
put-same p v w = rw (eqb_refl p) refl

absent : (w : Sized) (p : Text) → is_some (w p) ≡ false → w p ≡ none
absent w p h = elim (Option-cases (w p)) [ inl e ↦ e | inr (c, e) ↦ absurd (grind (arith, e, h)) ]

linked-put :
    (w : Sized) (p d q : Text)
    → (is_some (w d) ≡ true) ⊎ (is_some (w d) ≡ false)
    → (machine.link p d w).0 ≡ ok tt
    → (w d ≡ none) × ((machine.link p d w).1 q ≡ (if list_eqb q d then w p else w q))
linked-put w p d q (inl e) h = absurd (grind (arith, e, h))
linked-put w p d q (inr e) h = (absent w d e, grind (arith, e))

regular : (w : Sized) (p : Text) → is_some (w p) ≡ true → (c : ℕ) × (w p ≡ some c)
regular w p h = elim (Option-cases (w p)) [
  | inl e ↦ absurd (grind (arith, e, h))
  | inr (c, e) ↦ (c, e)
]

disk : Disk machine ℕ
disk = record {
  file = λ w. w;
  size = λ c. c;
  there = λ w p c h. rw h refl;
  is_regular = regular;
  copied = λ w source temp q timeout h. put-other temp (w source) w q h;
  copied_all = λ w source temp timeout c there h. put-same temp (w source) w ∙ there;
  changed_mode = λ w p q. refl;
  synced = λ w p q. refl;
  synced_dir = λ w p q. refl;
  linked = λ w p d q h. linked-put w p d q (Bool-cases (is_some (w d))) h;
  not_linked = λ w p d q e h. grind (arith, h);
  renamed = λ w p d q c there h. grind (arith, h);
  not_renamed = λ w p d q e h. grind (arith, h);
  removed = λ w p q h. grind (arith, h);
  not_removed = λ w p q e h. grind (arith, h);
}

truncated-bytes :
    (w : Sized) (path : Text) (bytes : ℕ)
    → (run_checked machine (truncate_command bytes path) 10 w).0 ≡ ok tt
    → (c : ℕ) × ((run_checked machine (truncate_command bytes path) 10 w).1 path ≡ some c)
      × (c ≡ bytes)
truncated-bytes w path bytes h =
    (bytes, rw (parse_int-int_text (pos bytes)) (put-same path (some bytes) w), refl)

sizing : Sizing disk
unfolding disk parse_int
sizing = record { truncated = truncated-bytes; measured = λ w path c h. h }

abbrev snapshot_path : Text
snapshot_path = codes "/mnt/svm_a/snapshot-s1"

abbrev volume_path : Text
volume_path = codes "/mnt/svm_a/volume-v1"

-- A machine with the file of one snapshot, of 2 GiB.
abbrev one_snapshot : Sized
one_snapshot = put snapshot_path (some (2 * gib)) (λ q. none)

copy_sparse_file-IsAtomic_example :
    IsAtomic disk snapshot_path
      (temp_path_of volume_path (codes "0f"))
      volume_path
      one_snapshot
      (copy_sparse_file machine (codes "0f") snapshot_path volume_path 600 one_snapshot)
unfolding join_path
copy_sparse_file-IsAtomic_example =
    copy_sparse_file-IsAtomic disk (codes "0f") snapshot_path volume_path 600 one_snapshot refl (
      temp_path_of-other volume_path (codes "0f") (codes "/mnt/svm_a") b's' (codes "napshot-s1")
        refl refl (λ e. absurd (omega (arith, e))))

abbrev backing : Backing Sized
backing = record { node = machine; client = none; volume_get = λ context id w. (none, w) }

abbrev config : CinderConfig
config = record {
  svm_strategy = codes "shared";
  default_svm = codes "a";
  nfs_server = some (codes "10.0.0.5");
  use_api = false;
  mount_point_base = codes "/mnt";
  mount_options = codes "rw";
  snapshot_copy_timeout = 600;
}

abbrev new_volume : Volume
new_volume = record {
  id = codes "v1";
  name = codes "v1";
  size = 5;
  extra_specs = none;
  provider_location = none;
  context = none;
}

abbrev snapshot : Snapshot
snapshot = record { id = codes "s1"; volume_id = codes "v0"; context = none }

abbrev made : Result Fault (Unit {0}) × Sized
made =
    volume_from_copy backing config (codes "0f") new_volume snapshot (codes "/mnt/svm_a")
      one_snapshot

made-ok : made.0 ≡ ok tt
unfolding volume_from_copy copy_sparse_file list_eqb join_path temp_path_of dirname rstrip_by
    basename extend_volume_file parse_int decimal
made-ok = refl

volume_from_copy-size_example :
    (c : ℕ) × (made.1 (join_path (codes "/mnt/svm_a") (codes "volume-v1")) ≡ some c)
    × (c ≡ (if ltb 2 5 then 5 else 2) * gib)
unfolding disk list_eqb join_path
volume_from_copy-size_example =
    volume_from_copy-size backing config sizing (codes "0f") (codes "/mnt/svm_a") new_volume
      snapshot one_snapshot (2 * gib) 2 refl refl refl refl refl made-ok

mount_point_of_a : get_mount_point_for_svm (codes "/mnt/") (codes "a") ≡ ok (codes "/mnt/svm_a")
unfolding get_mount_point_for_svm join_path matches_name matches_tail
mount_point_of_a = refl

get_mount_point_for_svm-apart_example :
    (codes "/mnt/svm_a" ≡ join_path (codes "/mnt/") (codes "svm_a"))
    × (basename (codes "/mnt/svm_a") ≡ codes "svm_a")
    × (codes "/mnt/svm_a" ≡ codes "/mnt/svm_a" → codes "a" ≡ codes "a")
get_mount_point_for_svm-apart_example =
    get_mount_point_for_svm-apart (codes "/mnt/") (codes "a") (codes "a") (codes "/mnt/svm_a")
      (codes "/mnt/svm_a") mount_point_of_a mount_point_of_a

abbrev some_specs : Option (Text → Option Text)
some_specs =
    some
      λ key. if list_eqb key (codes "arca_storage:total_iops_sec") then some (codes "500") else none

get_qos_specs-total_example :
    let total = int_spec some_specs (codes "arca_storage:total_iops_sec") in
    ((get_qos_specs some_specs).read_iops
      ≡ unless_given (int_spec some_specs (codes "arca_storage:read_iops_sec")) total)
    × ((get_qos_specs some_specs).write_iops
        ≡ unless_given (int_spec some_specs (codes "arca_storage:write_iops_sec")) total)
    × ((get_qos_specs some_specs).read_bps
        ≡ int_spec some_specs (codes "arca_storage:read_bytes_sec"))
    × ((get_qos_specs some_specs).write_bps
        ≡ int_spec some_specs (codes "arca_storage:write_bytes_sec"))
get_qos_specs-total_example = get_qos_specs-total some_specs

quotes :
    str_of_error (codes "mount" ∷ []) (record { returncode = 32; stdout = []; stderr = [] })
    ≡ codes "Command '['mount']' returned non-zero exit status 32."
unfolding str_of_error decimal decimal_digits
quotes = refl
