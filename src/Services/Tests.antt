-- ===== src/Services/Tests.antt =====
-- Requests to a small machine.
use arca_storage.Base.{
  length, contains, list_order, Bool, false, ℕ, suc, ◌≡◌, refl, true, none, List, [], ◌∷◌, Text,
  codes, list_eqb, nat_order, find?, rstrip_slash, All, split, parse_int, digits_value,
  if◌then◌else◌, some,
}
use mathlib.Core.Option
use arca_storage.Results.{Checked, ok, err}
use arca_storage.Ipv4.{parse_address, of_octets, parse_octet}
use arca_storage.Validators.{validate_name, matches_name, matches_tail, validate_ip_cidr}
use arca_storage.State.Files.{Volume, Snapshot, Files, upsert_volume, upsert_snapshot}
use arca_storage.State.Files as F
use arca_storage.Host.{Host}
use arca_storage.Ganesha.{Config, World, Outside}
use arca_storage.Ganesha.Render.{
  snapshot_path, versioned_args, snapshot_meta_path, config_path, render_config, write_if_changed,
  reload,
}
use arca_storage.Ganesha.Exports.{
  load_exports, save_exports, store_exports, new_export, max_id, is_export, export_path,
}
use arca_storage.Ganesha.Exports as G
use arca_storage.Services.{StorageConfig, Store, Leaves, volume_lv, snapshot_lv}
use arca_storage.Services.Volumes.{VolumeCreate, create_volume, resize_volume, delete_volume}
use arca_storage.Services.Volumes.Laws.{create_volume-files, resize_delete-files}
use arca_storage.Services.Snapshots.{
  SnapshotCreate, VolumeCloneCreate, create_snapshot, delete_snapshot, clone_volume_from_snapshot,
}
use arca_storage.Services.Snapshots.Laws.{Snapped, Cloned, snapshot_requests-files}
use arca_storage.Host.Lvm.{create_snapshot_lv, lv_path_of}
use arca_storage.Host.Xfs.{mount_xfs}
use arca_storage.Host.Logged.{logged}
use arca_storage.Services.Snapshots.Format.{IsPlain, clone-no_mkfs}
use arca_storage.Services.Exports.{ExportCreate, ExportAnswer, add_export}
use arca_storage.Services.Exports.Laws.{or_else, added, add_export-answer}

-- A machine that knows no logical volume yet, and counts its commands.
abbrev answer_to : List Text → ℕ
answer_to [] = 0
answer_to (cmd ∷ args) = if list_eqb cmd (codes "lvdisplay") then 5 else 0

abbrev pub small_host : Host ℕ
small_host = record {
  run = λ cmd w. (record { returncode = answer_to cmd; stdout = []; stderr = [] }, suc w);
  exists = λ path w. true;
  makedirs = λ path w. w;
}

abbrev pub storage : StorageConfig
storage = record {
  vg_name = codes "vg";
  thinpool_name = codes "pool";
  export_dir = codes "/exports";
}

abbrev pub new_store : Store ℕ
new_store = record { host = 0; files = record { svms = none; volumes = none; snapshots = none } }

abbrev data_volume : VolumeCreate
data_volume = record {
  name = codes "data";
  svm = codes "web";
  size_gib = 20;
  thin = true;
  fs_type = codes "xfs";
}

create_volume-files_example :
    Leaves
      (λ v after.
        (after ≡ upsert_volume (codes "now") v new_store.files)
        × (v.svm ≡ codes "web")
        × (v.name ≡ codes "data")
        × (v.lv_name ≡ volume_lv (codes "web") (codes "data"))
        × (validate_name (codes "data") ≡ ok tt)
        × (validate_name (codes "web") ≡ ok tt))
      new_store.files
      (create_volume small_host storage (codes "now") data_volume new_store).0
      (create_volume small_host storage (codes "now") data_volume new_store).1.files
create_volume-files_example =
    create_volume-files small_host storage (codes "now") data_volume new_store

resize_delete-files_example :
    Leaves
      (λ v after.
        (after ≡ upsert_volume (codes "now") v new_store.files)
        × (v.svm ≡ codes "web")
        × (v.name ≡ codes "data")
        × (v.size_gib ≡ 30)
        × (v.thin ≡ true)
        × (v.created_at ≡ some (codes "now")))
      new_store.files
      (resize_volume small_host storage (codes "now") (codes "data") (codes "web") 30 new_store).0
      (resize_volume small_host storage
        (codes "now")
        (codes "data")
        (codes "web")
        30
        new_store).1.files
    × Leaves
        (λ u after. after ≡ (F.delete_volume (codes "web") (codes "data") new_store.files).0)
        new_store.files
        (delete_volume small_host storage (codes "data") (codes "web") new_store).0
        (delete_volume small_host storage (codes "data") (codes "web") new_store).1.files
resize_delete-files_example =
    resize_delete-files small_host storage (codes "now") (codes "data") (codes "web") 30 new_store

abbrev night : SnapshotCreate
night = record { name = codes "night"; svm = codes "web"; volume = codes "data" }

abbrev night_clone : VolumeCloneCreate
night_clone = record {
  name = codes "copy";
  svm = codes "web";
  snapshot = codes "night";
  size_gib = none;
}

snapshot_requests-files_example :
    Leaves
      (Snapped (codes "now") night new_store.files)
      new_store.files
      (create_snapshot small_host storage (codes "now") night new_store).0
      (create_snapshot small_host storage (codes "now") night new_store).1.files
    × Leaves
        (λ u after.
          after
          ≡ (F.delete_snapshot (codes "web") (codes "data") (codes "night") new_store.files).0)
        new_store.files
        (delete_snapshot small_host storage
          (codes "night")
          (codes "web")
          (codes "data")
          new_store).0
        (delete_snapshot small_host storage
          (codes "night")
          (codes "web")
          (codes "data")
          new_store).1.files
    × Leaves
        (Cloned (codes "now") night_clone new_store.files)
        new_store.files
        (clone_volume_from_snapshot small_host storage (codes "now") night_clone new_store).0
        (clone_volume_from_snapshot small_host storage (codes "now") night_clone new_store).1.files
snapshot_requests-files_example =
    snapshot_requests-files small_host storage (codes "now") (codes "night") (codes "web")
      (codes "data") night night_clone new_store

abbrev is_mountpoint : List Text → Bool
is_mountpoint [] = false
is_mountpoint (cmd ∷ args) = list_eqb cmd (codes "mountpoint")

-- A machine that has the snapshot's logical volume but not the clone's, and where nothing is mounted.
abbrev cloning_host : Host ℕ
cloning_host = record {
  run = λ cmd w. (
    record {
      returncode =
          if contains (codes "/dev/vg/vol_web_copy") cmd
          then answer_to cmd
          else if is_mountpoint cmd
          then 1
          else 0;
      stdout = [];
      stderr = [];
    },
    suc w,
  );
  exists = λ path w. true;
  makedirs = λ path w. w;
}

abbrev night_snapshot : Snapshot
night_snapshot = record {
  svm = codes "web";
  volume = codes "data";
  name = codes "night";
  lv_path = codes "/dev/vg/vol_web_data_snap_night";
  lv_name = codes "vol_web_data_snap_night";
  status = codes "available";
  created_at = none;
}

-- A store with that snapshot.
abbrev logged_store : Store (ℕ × List (List Text))
logged_store = record {
  host = (0, (codes "lvs" ∷ []) ∷ []);
  files = record { svms = none; volumes = none; snapshots = some (night_snapshot ∷ []) };
}

abbrev is_ok : {A : Type 0} → Checked A → Bool
is_ok (ok _) = true
is_ok (err _) = false

abbrev night_cloned : Checked Volume × Store (ℕ × List (List Text))
night_cloned =
    clone_volume_from_snapshot (logged cloning_host) storage (codes "now") night_clone logged_store

-- The clone is made and mounted, by five commands.
cloned : (length night_cloned.1.host.1 ≡ 6) × (is_ok night_cloned.0 ≡ true)
unfolding clone_volume_from_snapshot validate_name F.list_snapshots list_eqb create_snapshot_lv
    lv_path_of snapshot_lv volume_lv mount_xfs rstrip_slash
cloned = (refl, refl)

clone-no_mkfs_example :
    All IsPlain
      (clone_volume_from_snapshot
        (logged cloning_host)
        storage
        (codes "now")
        night_clone
        logged_store).1.host.1
unfolding list_eqb
clone-no_mkfs_example =
    clone-no_mkfs cloning_host storage (codes "now") night_clone logged_store (refl, tt)

abbrev pub small_config : Config
small_config = record {
  export_dir = codes "/srv/";
  state_dir = codes "/var/lib/arca";
  ganesha_config_dir = codes "/etc/ganesha";
  ganesha_protocols = codes "4";
  ganesha_mountd_port = 20048;
  ganesha_nlm_port = 32768;
}

abbrev pub reloading : Outside
reloading = record {
  hash = λ a. codes "v";
  render = λ a. a.svm_name;
  meta_json = λ a. a.protocols;
  reload = λ svm w. none;
}

abbrev pub empty_world : World
empty_world = record { exports = λ s. none; texts = λ p. none; writes = [] }

abbrev data_export : ExportCreate
data_export = record {
  svm = codes "web";
  volume = codes "data";
  client = codes "10.0.0.0/8";
  access = codes "rw";
  root_squash = true;
  sec = codes "sys" ∷ [];
}

abbrev data_answer : ExportAnswer
data_answer = record {
  svm = codes "web";
  volume = codes "data";
  client = codes "10.0.0.0/8";
  access = codes "rw";
  root_squash = true;
  sec = codes "sys" ∷ [];
  pseudo = codes "/srv/web/data";
  export_id = 1;
}

data_exported : (add_export reloading small_config data_export empty_world).0 ≡ ok data_answer
unfolding add_export validate_name matches_name matches_tail validate_ip_cidr split parse_int
    digits_value parse_address of_octets parse_octet Option.bind G.add_export store_exports reload
    render_config write_if_changed save_exports load_exports new_export max_id export_path list_eqb
    snapshot_path versioned_args snapshot_meta_path config_path rstrip_slash
data_exported = refl

add_export-answer_example :
    let p =
      is_export
        (export_path (rstrip_slash (codes "/srv/")) (codes "web") (codes "data"))
        (codes "10.0.0.0/8") in
    data_answer.export_id
    ≡ (or_else
        (find? p (load_exports (codes "web") empty_world))
        (added reloading small_config data_export empty_world)).export_id
add_export-answer_example =
    add_export-answer reloading small_config data_export empty_world data_answer data_exported
