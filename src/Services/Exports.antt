-- ===== src/Services/Exports.antt =====
-- export_service.py, over the exports of cli/lib/ganesha.py.
pub mod Laws
use arca_storage.Base.{
  ℕ, Bool, Option, none, some, List, [], ◌∷◌, Text, codes, is_empty, rstrip_slash, find?, filter,
  take, list_eqb, nat_order, if◌then◌else◌,
}
use arca_storage.Results.{Error, export_not_created, ok, or_raise}
use arca_storage.Validators.{validate_name, validate_ip_cidr}
use arca_storage.Actions.{Action, pure, lift, ◌>>=◌, ◌>>◌}
use arca_storage.Ganesha.{Export, Config, World, Outside}
use arca_storage.Ganesha.Exports.{load_exports, is_export, export_path, Listed, list_exports}
use arca_storage.Ganesha.Exports as G

-- ExportCreate of api/models.py
pub record ExportCreate : Type 0 where
  pub svm : Text
  pub volume : Text
  pub client : Text
  pub access : Text
  pub root_squash : Bool
  pub sec : List Text

-- What a request for an export answers.
pub record ExportAnswer : Type 0 where
  pub svm : Text
  pub volume : Text
  pub client : Text
  pub access : Text
  pub root_squash : Bool
  pub sec : List Text
  pub pseudo : Text
  pub export_id : ℕ

module _ (o : Outside) (cfg : Config) where
  -- The first entry of the file with the client and the path of the request.
  abbrev pub find_entry : ExportCreate → Action World Export
  find_entry d w = (
    or_raise
        (find? (is_export (export_path (rstrip_slash cfg.export_dir) d.svm d.volume) d.client)
          (load_exports d.svm w))
        export_not_created,
    w,
  )

  unfoldable pub add_export : ExportCreate → Action World ExportAnswer
  add_export d = do
    lift (validate_name d.svm)
    lift (validate_name d.volume)
    lift (validate_ip_cidr d.client)
    G.add_export o cfg d.svm d.volume d.client d.access d.root_squash (some d.sec)
    export_entry ← find_entry d
    pure (record {
      svm = d.svm;
      volume = d.volume;
      client = d.client;
      access = d.access;
      root_squash = d.root_squash;
      sec = d.sec;
      pseudo = export_entry.pseudo;
      export_id = export_entry.export_id;
    })

  unfoldable pub remove_export : Text → Text → Text → Action World (Unit {0})
  remove_export svm volume client = do
    lift (validate_name svm)
    lift (validate_name volume)
    lift (validate_ip_cidr client)
    G.remove_export o cfg svm volume client

-- `if client: items = [i for i in items if i.get("client") == client]`
abbrev of_client : Option Text → List Listed → List Listed
of_client none items = items
of_client (some c) items =
    if is_empty c then items else filter (λ i. list_eqb i.entry.client c) items

unfoldable pub list_exports_page :
    List Text → Option Text → Option Text → Option Text → ℕ → World → List Listed
list_exports_page names svm volume client limit w =
    take limit (of_client client (list_exports names svm volume w))
