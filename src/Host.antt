-- ===== src/Host.antt =====
-- The machine below the program: commands run by `subprocess.run`, and the directories.
pub mod Lvm
pub mod Xfs
pub mod Netns
pub mod Logged
pub mod Systemd
pub mod Pacemaker
mod Tests
use arca_storage.Base.{ℕ, Bool, not, List, Text, nat_eqb}
use arca_storage.Results.{ok}
use arca_storage.Actions.{Action}

pub record Completed : Type 0 where
  pub returncode : ℕ
  pub stdout : Text
  pub stderr : Text

-- `run` is `subprocess.run` of an installed command with `check=False`; `exists` is `os.path.exists`;
-- `makedirs` is `os.makedirs` of a directory that can be made.
pub record Host (W : Type 0) : Type 0 where
  pub run : List Text → W → Completed × W
  pub exists : Text → W → Bool
  pub makedirs : Text → W → W

-- `result.returncode == 0`
abbrev pub succeeded : Completed → Bool
succeeded r = nat_eqb r.returncode 0

abbrev pub failed : Completed → Bool
failed r = not (succeeded r)

module _ {W : Type 0} (h : Host W) where
  abbrev pub command : List Text → Action W Completed
  command cmd w = let (r, w') = h.run cmd w in (ok r, w')
