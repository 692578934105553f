-- ===== src/Ganesha/Render.antt =====
-- `render_config`, `reload`, `rollback_config` and the files that they write.
pub mod Writes
pub mod Rollback
use arca_storage.Base.{
  ℕ, zero, suc, ◌+◌, ◌≡◌, Bool, true, false, not, Option, none, some, List, [], ◌∷◌, ◌++◌, map,
  filter, contains, Text, codes, is_empty, strip, split, join, list_eqb, lex_le, nat_order,
  list_order, nat_eqb, leb, if◌then◌else◌,
}
use arca_storage.Results.{Error, reload_failed, config_snapshot_missing, Checked, ok, err}
use arca_storage.Ganesha.{Export, Config, RenderArgs, World, Outside}

-- `sorted` by the export's id, its path and its client
unfoldable pub export_le : Export → Export → Bool
export_le e f =
    if nat_eqb e.export_id f.export_id
    then if list_eqb e.path f.path then lex_le e.client f.client else lex_le e.path f.path
    else leb e.export_id f.export_id

insert_export : Export → List Export → List Export
insert_export e [] = e ∷ []
insert_export e (f ∷ fs) = if export_le e f then e ∷ f ∷ fs else f ∷ insert_export e fs

unfoldable pub sort_exports : List Export → List Export
unfolding insert_export
sort_exports [] = []
sort_exports (e ∷ es) = insert_export e (sort_exports es)

abbrev non_empty : List Text → List Text
non_empty ts = filter (λ t. not (is_empty t)) ts

abbrev pub or_default : Text → Text → Text
or_default t d = if is_empty t then d else t

-- `_render_sectype` of a list
unfoldable pub render_sectype : List Text → Text
render_sectype tokens = or_default (join (codes ", ") (non_empty (map strip tokens))) (codes "sys")

abbrev protocol_tokens : Config → List Text
protocol_tokens cfg = non_empty (map strip (split b',' cfg.ganesha_protocols))

-- What is rendered, but for the version.
unfoldable pub render_args : Config → Text → List Export → RenderArgs
render_args cfg svm_name exports =
    let exports_sorted = sort_exports exports in
    record {
      svm_name = svm_name;
      config_version = [];
      exports = exports_sorted;
      sec_rendered = map (λ e. render_sectype e.sec) exports_sorted;
      protocols = or_default (join (codes ", ") (protocol_tokens cfg)) (codes "4");
      enable_v3 = contains (codes "3") (protocol_tokens cfg);
      mountd_port = cfg.ganesha_mountd_port;
      nlm_port = cfg.ganesha_nlm_port;
    }

-- `directory / name`
abbrev pub in_dir : Text → Text → Text
in_dir dir name = dir ++ b'/' ∷ name

abbrev pub conf_name : Text → Text
conf_name stem = codes "ganesha." ++ stem ++ codes ".conf"

abbrev pub meta_name : Text → Text
meta_name stem = codes "ganesha." ++ stem ++ codes ".json"

unfoldable pub config_path : Config → Text → Text
config_path cfg svm_name = in_dir cfg.ganesha_config_dir (conf_name svm_name)

unfoldable pub snapshot_path : Config → Text → Text → Text
snapshot_path cfg svm_name version =
    in_dir (in_dir cfg.state_dir (codes "config")) (conf_name (svm_name ++ b'.' ∷ version))

unfoldable pub snapshot_meta_path : Config → Text → Text → Text
snapshot_meta_path cfg svm_name version =
    in_dir (in_dir cfg.state_dir (codes "config")) (meta_name (svm_name ++ b'.' ∷ version))

abbrev pub set_text : Text → Text → World → World
set_text path content w = record w {
  texts = λ p. if list_eqb p path then some content else w.texts p;
  writes = path ∷ w.writes;
}

-- `_write_if_changed`
unfoldable pub write_if_changed : Text → Text → World → World
write_if_changed path content w = elim (w.texts path) [
  | none ↦ set_text path content w
  | some old ↦ if list_eqb old content then w else set_text path content w
]

abbrev pub latest : Text
latest = codes "latest"

unfoldable pub reload : Outside → Text → World → Checked (Unit {0}) × World
reload o svm_name w = elim (o.reload svm_name w) [
  | none ↦ (ok tt, w)
  | some stderr ↦ (err (reload_failed stderr), w)
]

module _ (o : Outside) (cfg : Config) (svm_name : Text) where
  -- What is rendered, with the version that hashes it.
  unfoldable pub versioned_args : List Export → RenderArgs
  unfolding render_args
  versioned_args exports =
      let args = render_args cfg svm_name exports in record args { config_version = o.hash args }

  -- The five files, in the order in which they are written.
  unfoldable pub render_config : List Export → World → Text × World
  render_config exports w =
      let args = versioned_args exports in
      let content = o.render args in
      let meta = o.meta_json args in
      let w1 = write_if_changed (snapshot_path cfg svm_name args.config_version) content w in
      let w2 = write_if_changed (snapshot_path cfg svm_name latest) content w1 in
      let w3 = write_if_changed (snapshot_meta_path cfg svm_name args.config_version) meta w2 in
      let w4 = write_if_changed (snapshot_meta_path cfg svm_name latest) meta w3 in
      (config_path cfg svm_name, write_if_changed (config_path cfg svm_name) content w4)

  -- A snapshot becomes the configuration again; the version may be "latest".
  unfoldable pub rollback_config : Text → World → Checked Text × World
  rollback_config version w = elim (w.texts (snapshot_path cfg svm_name version)) [
    | none ↦ (err (config_snapshot_missing (snapshot_path cfg svm_name version)), w)
    | some content ↦
        let (r, w') = reload o svm_name (write_if_changed (config_path cfg svm_name) content w) in
        elim r [ ok u ↦ (ok (config_path cfg svm_name), w') | err e ↦ (err e, w') ]
  ]
