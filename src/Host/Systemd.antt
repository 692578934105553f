-- ===== src/Host/Systemd.antt =====
-- cli/lib/systemd.py: the units of systemd.
use arca_storage.Base.{Bool, List, [], ◌∷◌, Text, codes}
use arca_storage.Results.{start_unit_failed, stop_unit_failed}
use arca_storage.Actions.{Action, pure, ◌>>=◌, raise_when}
use arca_storage.Host.{Host, succeeded, failed, command}

abbrev pub systemctl : Text → Text → List Text
systemctl verb unit_name = codes "systemctl" ∷ verb ∷ unit_name ∷ []

module _ {W : Type 0} (h : Host W) where
  unfoldable pub start_unit : Text → Action W (Unit {0})
  start_unit unit_name = do
    result ← command h (systemctl (codes "start") unit_name)
    raise_when (failed result) (start_unit_failed unit_name result.stderr)

  unfoldable pub stop_unit : Text → Action W (Unit {0})
  stop_unit unit_name = do
    result ← command h (systemctl (codes "stop") unit_name)
    raise_when (failed result) (stop_unit_failed unit_name result.stderr)

  unfoldable pub is_active : Text → Action W Bool
  is_active unit_name = do
    result ← command h (systemctl (codes "is-active") unit_name)
    pure (succeeded result)
