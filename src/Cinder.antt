-- ===== src/Cinder.antt =====
-- openstack/cinder: the volume driver, whose volumes are files on the NFS export of an SVM.
pub mod Paths
pub mod Files
pub mod Mounts
pub mod Driver
pub mod Setup
pub mod Qos
pub mod Volumes
pub mod Snapshots
mod Tests
use arca_storage.Base.{ℕ, Bool, true, false, Option, none, some, List, Text, nat_eqb, if◌then◌else◌}
use arca_storage.Results.{Result, ok, err}
use arca_storage.Host.{Completed, succeeded}

-- The exceptions that the helpers and the driver tell apart: `ArcaStorageException`, the ones of
-- `subprocess.run`, `OSError`, `VolumeBackendAPIException` and any other.
pub data Fault : Type 0 where
  storage_error timeout_expired called_process os_error backend_error other_error : Fault

-- What becomes of `subprocess.run` with a timeout; an `OSError` is a command that is not installed.
pub data Ran : Type 0 where
  finished : Completed → Ran
  timed_out : Ran
  not_run : Ran

-- An `OSError`, of which `FileExistsError` is told apart.
pub data OsFault : Type 0 where
  file_exists os_fault : OsFault

-- The machine that the driver runs on. `read_mounts` is the text of /proc/mounts, `none` where it
-- cannot be read; `open_excl` makes a file that does not exist yet; `listdir` is whether the
-- directory is empty.
pub record Node (W : Type 0) : Type 0 where
  pub run : List Text → ℕ → W → Ran × W
  pub exists : Text → W → Bool
  pub is_link : Text → W → Bool
  pub is_file : Text → W → Bool
  pub is_dir : Text → W → Bool
  pub is_empty_dir : Text → W → Option Bool
  pub read_mounts : W → Option Text
  pub get_size : Text → W → Option ℕ
  pub makedirs : Text → W → Result OsFault (Unit {0}) × W
  pub rmdir : Text → W → Result OsFault (Unit {0}) × W
  pub open_excl : Text → W → Result OsFault (Unit {0}) × W
  pub ftruncate : Text → ℕ → W → Result OsFault (Unit {0}) × W
  pub chmod : Text → W → Result OsFault (Unit {0}) × W
  pub fsync : Text → W → Result OsFault (Unit {0}) × W
  pub fsync_dir : Text → W → Result OsFault (Unit {0}) × W
  pub link : Text → Text → W → Result OsFault (Unit {0}) × W
  pub rename : Text → Text → W → Result OsFault (Unit {0}) × W
  pub remove : Text → W → Result OsFault (Unit {0}) × W

-- An operation on a state that may raise. What was done before a raise stays done.
abbrev pub Op : Type 0 → Type 0 → Type 0
Op S A = S → Result Fault A × S

module _ {S : Type 0} {A : Type 0} where
  abbrev pub pure : A → Op S A
  pure a s = (ok a, s)

  abbrev pub raise : Fault → Op S A
  raise e s = (err e, s)

module _ {S : Type 0} {A : Type 0} {B : Type 0} where
  abbrev pub continue : Result Fault A → (A → Op S B) → Op S B
  continue (ok a) f s = f a s
  continue (err e) f s = (err e, s)

  infixl 5 ◌>>=◌ ◌>>◌
  abbrev pub ◌>>=◌ : Op S A → (A → Op S B) → Op S B
  ◌>>=◌ m f s = let (r, s') = m s in continue r f s'

  abbrev pub ◌>>◌ : Op S A → Op S B → Op S B
  m >> n = m >>= λ _. n

-- A call of the operating system, whose exception is an `OSError`.
abbrev pub os_call : {W : Type 0} → (W → Result OsFault (Unit {0}) × W) → Op W (Unit {0})
os_call call w = let (r, w') = call w in (elim r [ ok _ ↦ ok tt | err _ ↦ err os_error ], w')

-- What `subprocess.run` raises with `check=True`.
abbrev pub checked_run : Ran → Result Fault (Unit {0})
checked_run (finished c) = if succeeded c then ok tt else err called_process
checked_run timed_out = err timeout_expired
checked_run not_run = err os_error

-- `subprocess.run(cmd, check=True, timeout=timeout)`
abbrev pub run_checked : {W : Type 0} → Node W → List Text → ℕ → Op W (Unit {0})
run_checked n cmd timeout w = let (r, w') = n.run cmd timeout w in (checked_run r, w')
