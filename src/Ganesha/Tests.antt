-- ===== src/Ganesha/Tests.antt =====
-- The exports at a small SVM.
use arca_storage.Base.{
  ◌+◌, ◌<◌, ◌≡◌, ◌≢◌, refl, true, false, none, some, [], ◌∷◌, Text, codes, list_eqb, list_eqb_iff,
  nat_order, length, All, rstrip_slash,
}
use arca_storage.Ganesha.{Export, Config, RenderArgs, World, Outside}
use arca_storage.Ganesha.Render.{
  config_path, snapshot_path, latest, render_args, versioned_args, render_config, rollback_config,
  sort_exports,
}
use arca_storage.Ganesha.Render.Rollback.{rollback-restores}
use arca_storage.Ganesha.Exports.{
  load_exports, new_export, export_path, add_export, remove_export, sync,
}
use arca_storage.Ganesha.Exports.Ids.{HasDistinctIds, export_ids_distinct}
use arca_storage.Ganesha.Exports.Changes.{IsOther, remove-add_export}
use arca_storage.Ganesha.Exports.InStep.{IsInStep, export_requests-IsInStep}

differ : (t u : Text) → list_eqb t u ≡ false → t ≢ u
differ t u h e = cc (h, (list_eqb_iff t u).1 e)

abbrev small_config : Config
small_config = record {
  export_dir = codes "/srv/";
  state_dir = codes "/var/lib/arca";
  ganesha_config_dir = codes "/etc/ganesha";
  ganesha_protocols = codes "3, 4";
  ganesha_mountd_port = 20048;
  ganesha_nlm_port = 32768;
}

-- The version is a letter for the number of exports.
abbrev digest : RenderArgs → Text
digest a = (b'a' + length a.exports) ∷ []

abbrev reloading : Outside
reloading = record {
  hash = digest;
  render = λ a. a.config_version;
  meta_json = λ a. a.protocols;
  reload = λ svm w. none;
}

abbrev not_reloading : Outside
not_reloading = record {
  hash = digest;
  render = λ a. a.config_version;
  meta_json = λ a. a.protocols;
  reload = λ svm w. some (codes "no unit");
}

abbrev web : Text
web = codes "web"

abbrev data_entry : Export
data_entry = record {
  export_id = 7;
  path = codes "/srv/web/data";
  pseudo = codes "/srv/web/data";
  access = codes "RW";
  squash = codes "Root_Squash";
  sec = codes "sys" ∷ [];
  client = codes "10.0.0.0/8";
}

abbrev small_world : World
small_world = record { exports = λ s. some (data_entry ∷ []); texts = λ p. none; writes = [] }

small_ids : HasDistinctIds (load_exports web small_world)
unfolding load_exports
small_ids = (tt, tt)

export_ids_distinct_example :
    HasDistinctIds (
      load_exports web
        (add_export reloading small_config web
          (codes "logs")
          (codes "10.0.0.9/32")
          (codes "ro")
          true
          none
          small_world).1)
    × HasDistinctIds (
        load_exports web
          (remove_export reloading small_config web
            (codes "logs")
            (codes "10.0.0.9/32")
            small_world).1)
    × All
        (λ e.
          e.export_id
          < (new_export small_config
              (load_exports web small_world)
              web
              (codes "logs")
              (codes "10.0.0.9/32")
              (codes "ro")
              true
              none).export_id)
        (load_exports web small_world)
export_ids_distinct_example =
    export_ids_distinct reloading small_config web (codes "logs") (codes "10.0.0.9/32") (codes "ro")
      true none small_world small_ids

small_others :
    All
      (IsOther small_config web (codes "logs") (codes "10.0.0.9/32"))
      (load_exports web small_world)
unfolding load_exports list_eqb export_path rstrip_slash
small_others = ((refl, refl), tt)

remove-add_export_example :
    load_exports web
      (remove_export reloading small_config web
        (codes "logs")
        (codes "10.0.0.9/32")
        (add_export reloading small_config web
          (codes "logs")
          (codes "10.0.0.9/32")
          (codes "ro")
          true
          none
          small_world).1).1
    ≡ load_exports web small_world
remove-add_export_example =
    remove-add_export reloading small_config web (codes "logs") (codes "10.0.0.9/32") (codes "ro")
      true none small_world small_others web

versions_differ :
    (versioned_args reloading small_config web (data_entry ∷ [])).config_version
    ≢ (versioned_args reloading small_config web []).config_version
unfolding versioned_args render_args sort_exports list_eqb
versions_differ = differ (codes "b") (codes "a") refl

version_not_latest :
    (versioned_args reloading small_config web (data_entry ∷ [])).config_version ≢ latest
unfolding versioned_args render_args sort_exports list_eqb
version_not_latest = differ (codes "b") latest refl

paths_differ :
    config_path small_config web
    ≢ snapshot_path small_config web
        (versioned_args reloading small_config web (data_entry ∷ [])).config_version
unfolding config_path snapshot_path versioned_args render_args sort_exports list_eqb
paths_differ =
    differ (codes "/etc/ganesha/ganesha.web.conf") (codes "/var/lib/arca/config/ganesha.web.b.conf")
      refl

rollback-restores_example :
    let w1 = (render_config reloading small_config web (data_entry ∷ []) small_world).1 in
    let w2 = (render_config reloading small_config web [] w1).1 in
    (rollback_config reloading small_config web
        (versioned_args reloading small_config web (data_entry ∷ [])).config_version
        w2).1.texts
      (config_path small_config web)
    ≡ some (reloading.render (versioned_args reloading small_config web (data_entry ∷ [])))
rollback-restores_example =
    rollback-restores reloading small_config web (data_entry ∷ []) [] small_world versions_differ
      version_not_latest paths_differ

export_requests-IsInStep_example :
    IsInStep not_reloading small_config web
      (add_export not_reloading small_config web
        (codes "logs")
        (codes "10.0.0.9/32")
        (codes "ro")
        true
        none
        small_world).1
    × IsInStep not_reloading small_config web
        (remove_export not_reloading small_config web
          (codes "logs")
          (codes "10.0.0.9/32")
          small_world).1
    × IsInStep not_reloading small_config web (sync not_reloading small_config web small_world).1
export_requests-IsInStep_example =
    export_requests-IsInStep not_reloading small_config web (codes "logs") (codes "10.0.0.9/32")
      (codes "ro") true none small_world
