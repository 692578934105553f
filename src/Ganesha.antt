-- ===== src/Ganesha.antt =====
-- cli/lib/ganesha.py: the exports of each SVM and the NFS-Ganesha configuration that is rendered
-- from them. The template engine, the hash and the service manager are parameters.
pub mod Render
mod Tests
pub mod Exports
use arca_storage.Base.{ℕ, Bool, Option, List, Text}

-- An entry of exports.<svm>.json.
pub record Export : Type 0 where
  pub export_id : ℕ
  pub path : Text
  pub pseudo : Text
  pub access : Text
  pub squash : Text
  pub sec : List Text
  pub client : Text

-- What the functions read of the configuration of cli/lib/config.py.
pub record Config : Type 0 where
  pub export_dir : Text
  pub state_dir : Text
  pub ganesha_config_dir : Text
  pub ganesha_protocols : Text
  pub ganesha_mountd_port : ℕ
  pub ganesha_nlm_port : ℕ

-- The arguments of the version's hash, of the snapshot's metadata and of the template.
pub record RenderArgs : Type 0 where
  pub svm_name : Text
  pub config_version : Text
  pub exports : List Export
  pub sec_rendered : List Text
  pub protocols : Text
  pub enable_v3 : Bool
  pub mountd_port : ℕ
  pub nlm_port : ℕ

-- The files: the exports of each SVM, where `none` is a file that does not exist, and the other
-- texts by path, with the paths that were written to, the last one first.
pub record World : Type 0 where
  pub exports : Text → Option (List Export)
  pub texts : Text → Option Text
  pub writes : List Text

-- The code outside the program: the hash of the exports and settings, shortened to 12 digits, the
-- template engine, the JSON of the metadata, and `systemctl reload`, which answers `none` on success
-- and its standard error output otherwise.
pub record Outside : Type 0 where
  pub hash : RenderArgs → Text
  pub render : RenderArgs → Text
  pub meta_json : RenderArgs → Text
  pub reload : Text → World → Option Text
