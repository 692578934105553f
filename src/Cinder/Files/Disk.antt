-- ===== src/Cinder/Files/Disk.antt =====
-- What the helpers rely on of the file system and of `cp` and `truncate`: a call that fails changes
-- nothing, but a failed `cp` may leave anything in the file that it writes.
use arca_storage.Base.{
  ℕ, ◌≡◌, ◌≢◌, true, Option, none, some, Text, list_eqb, nat_order, if◌then◌else◌,
}
use arca_storage.Results.{ok, err}
use arca_storage.Cinder.{Node, OsFault, run_checked}
use arca_storage.Cinder.Files.{cp_command}

-- Two paths are two files: none of them goes through a link, or is spelled in two ways. `file` is the
-- content of the regular file at a path, and `size` the number of its bytes.
pub record Disk {W : Type 0} (n : Node W) (C : Type 0) : Type 0 where
  pub file : W → Text → Option C
  pub size : C → ℕ
  pub there : (w : W) (p : Text) (c : C) → file w p ≡ some c → n.exists p w ≡ true
  pub is_regular : (w : W) (p : Text) → n.is_file p w ≡ true → (c : C) × (file w p ≡ some c)
  pub copied :
      (w : W) (source temp q : Text) (timeout : ℕ)
      → q ≢ temp
      → file (run_checked n (cp_command source temp) timeout w).1 q ≡ file w q
  pub copied_all :
      (w : W) (source temp : Text) (timeout : ℕ) (c : C)
      → file w source ≡ some c
      → (run_checked n (cp_command source temp) timeout w).0 ≡ ok tt
      → file (run_checked n (cp_command source temp) timeout w).1 temp ≡ some c
  pub changed_mode : (w : W) (p q : Text) → file (n.chmod p w).1 q ≡ file w q
  pub synced : (w : W) (p q : Text) → file (n.fsync p w).1 q ≡ file w q
  pub synced_dir : (w : W) (p q : Text) → file (n.fsync_dir p w).1 q ≡ file w q
  pub linked :
      (w : W) (p d q : Text)
      → (n.link p d w).0 ≡ ok tt
      → (file w d ≡ none)
        × (file (n.link p d w).1 q ≡ (if list_eqb q d then file w p else file w q))
  pub not_linked :
      (w : W) (p d q : Text) (e : OsFault)
      → (n.link p d w).0 ≡ err e
      → file (n.link p d w).1 q ≡ file w q
  pub renamed :
      (w : W) (p d q : Text) (c : C)
      → file w p ≡ some c
      → (n.rename p d w).0 ≡ ok tt
      → file (n.rename p d w).1 q
        ≡ (if list_eqb q d then file w p else if list_eqb q p then none else file w q)
  pub not_renamed :
      (w : W) (p d q : Text) (e : OsFault)
      → (n.rename p d w).0 ≡ err e
      → file (n.rename p d w).1 q ≡ file w q
  pub removed :
      (w : W) (p q : Text)
      → (n.remove p w).0 ≡ ok tt
      → file (n.remove p w).1 q ≡ (if list_eqb q p then none else file w q)
  pub not_removed :
      (w : W) (p q : Text) (e : OsFault)
      → (n.remove p w).0 ≡ err e
      → file (n.remove p w).1 q ≡ file w q
