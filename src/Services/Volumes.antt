-- ===== src/Services/Volumes.antt =====
-- volume_service.py
pub mod Laws
pub mod Names
use arca_storage.Base.{ℕ, Bool, true, Option, none, some, List, [], Text, codes, rstrip_slash, take}
use arca_storage.Results.{ok}
use arca_storage.Validators.{validate_name}
use arca_storage.Actions.{Action, pure, lift, ◌>>=◌, ◌>>◌}
use arca_storage.State.Files.{Volume, Files, upsert_volume, list_volumes}
use arca_storage.State.Files as F
use arca_storage.Host.{Host}
use arca_storage.Host.Lvm
use arca_storage.Host.Xfs
use arca_storage.Services.{StorageConfig, Store, on_host, update_files, mount_path_of, volume_lv}

-- VolumeCreate of api/models.py
pub record VolumeCreate : Type 0 where
  pub name : Text
  pub svm : Text
  pub size_gib : ℕ
  pub thin : Bool
  pub fs_type : Text

module _ {W : Type 0} (h : Host W) (cfg : StorageConfig) where
  -- `now` is the time stamp of the request, as a text.
  unfoldable pub create_volume : Text → VolumeCreate → Action (Store W) Volume
  create_volume now d = do
    lift (validate_name d.name)
    lift (validate_name d.svm)
    let mount_path = mount_path_of (rstrip_slash cfg.export_dir) d.svm d.name
    let lv_name = volume_lv d.svm d.name
    lv_path ← on_host (Lvm.create_lv h cfg.vg_name lv_name d.size_gib d.thin cfg.thinpool_name)
    on_host (Xfs.format_xfs h lv_path [])
    on_host (Xfs.mount_xfs h lv_path mount_path)
    let volume : Volume = record {
      svm = d.svm;
      name = d.name;
      size_gib = d.size_gib;
      thin = d.thin;
      fs_type = d.fs_type;
      mount_path = mount_path;
      lv_path = lv_path;
      lv_name = lv_name;
      status = codes "available";
      created_at = some now;
    }
    update_files (upsert_volume now volume)
    pure volume

  unfoldable pub resize_volume : Text → Text → Text → ℕ → Action (Store W) Volume
  resize_volume now name svm new_size_gib = do
    lift (validate_name name)
    lift (validate_name svm)
    let mount_path = mount_path_of (rstrip_slash cfg.export_dir) svm name
    let lv_name = volume_lv svm name
    on_host (Lvm.resize_lv h cfg.vg_name lv_name new_size_gib)
    on_host (Xfs.grow_xfs h mount_path)
    let volume : Volume = record {
      svm = svm;
      name = name;
      size_gib = new_size_gib;
      thin = true;
      fs_type = codes "xfs";
      mount_path = mount_path;
      lv_path = Lvm.lv_path_of cfg.vg_name lv_name;
      lv_name = lv_name;
      status = codes "available";
      created_at = some now;
    }
    update_files (upsert_volume now volume)
    pure volume

  unfoldable pub delete_volume : Text → Text → Action (Store W) (Unit {0})
  delete_volume name svm = do
    lift (validate_name name)
    lift (validate_name svm)
    on_host (Xfs.umount_xfs h (mount_path_of (rstrip_slash cfg.export_dir) svm name))
    on_host (Lvm.delete_lv h cfg.vg_name (volume_lv svm name))
    update_files (λ files. (F.delete_volume svm name files).0)

-- The first `limit` items; there is never a next cursor.
unfoldable pub list_volumes_page : Option Text → Option Text → ℕ → Files → List Volume
list_volumes_page svm name limit files = take limit (list_volumes svm name files)
