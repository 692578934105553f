-- ===== src/Services.antt =====
-- The service layer api/services: what a request does to the machine and to the state files.
pub mod Svms
pub mod Qos
pub mod Volumes
pub mod Snapshots
pub mod Tests
pub mod Exports
use arca_storage.Base.{ℕ, ◌≡◌, refl, ◌++◌, ◌∷◌, Text, codes}
use arca_storage.Results.{Error, Checked, ok, err}
use arca_storage.Actions.{Action}
use arca_storage.State.Files.{Files}

-- What the services read of the configuration of cli/lib/config.py.
pub record StorageConfig : Type 0 where
  pub vg_name : Text
  pub thinpool_name : Text
  pub export_dir : Text

-- The machine and the state files.
pub record Store (W : Type 0) : Type 0 where
  pub host : W
  pub files : Files

module _ {W : Type 0} where
  -- An action on the machine, which does not touch the state files.
  abbrev pub on_host : {A : Type 0} → Action W A → Action (Store W) A
  on_host m s = let (r, w) = m s.host in (r, record s { host = w })

  abbrev pub update_files : (Files → Files) → Action (Store W) (Unit {0})
  update_files f s = (ok tt, record s { files = f s.files })

-- What a request leaves in the state files: where it raises they are as before, and where it returns
-- they are as `done` says of its answer.
abbrev pub Leaves : {A : Type 0} → (A → Files → Type 0) → Files → Checked A → Files → Type 0
Leaves done before (err e) after = after ≡ before
Leaves done before (ok a) after = done a after

pub leaves :
    {A : Type 0} (done : A → Files → Type 0) {before after : Files} (r : Checked A)
    → ((e : Error) → r ≡ err e → after ≡ before)
    → ((a : A) → r ≡ ok a → done a after)
    → Leaves done before r after
leaves done (err e) failed returned = failed e refl
leaves done (ok a) failed returned = returned a refl

-- f"{export_dir}/{svm}/{name}"
abbrev pub mount_path_of : Text → Text → Text → Text
mount_path_of export_dir svm name = export_dir ++ b'/' ∷ (svm ++ b'/' ∷ name)

-- f"vol_{svm}_{name}"
unfoldable pub volume_lv : Text → Text → Text
volume_lv svm name = codes "vol_" ++ (svm ++ b'_' ∷ name)

-- f"vol_{svm}_{volume}_snap_{name}"
unfoldable pub snapshot_lv : Text → Text → Text → Text
snapshot_lv svm volume name = codes "vol_" ++ (svm ++ b'_' ∷ (volume ++ (codes "_snap_" ++ name)))
