-- ===== src/Services/Svms.antt =====
-- svm_service.py
pub mod Laws
pub mod Tests
use arca_storage.Base.{
  ℕ, Bool, true, false, not, Option, none, some, List, [], ◌∷◌, ◌++◌, Text, codes, is_empty,
  has_text, lower, rstrip_slash, take, pos, nat_eqb, if◌then◌else◌,
}
use arca_storage.Results.{
  Error, Checked, ok, err, lv_exists, create_lv_failed, device_missing, format_failed,
}
use arca_storage.Validators.{
  validate_name, validate_vlan, validate_ip_cidr, validate_ipv4, infer_gateway_from_ip_cidr,
}
use arca_storage.Actions.{Action, pure, lift, ◌>>=◌, ◌>>◌}
use arca_storage.State.Files.{Svm, Files, upsert_svm, list_svms}
use arca_storage.State.Files as F
use arca_storage.Host.{Host}
use arca_storage.Host.Lvm.{create_lv}
use arca_storage.Host.Xfs.{format_xfs}
use arca_storage.Host.Netns.{allocate_vlan_ifname, create_namespace, delete_namespace}
use arca_storage.Host.Netns.Attach.{Vlan, attach_vlan}
use arca_storage.Host.Systemd.{stop_unit}
use arca_storage.Host.Pacemaker.{create_group, delete_group}
use arca_storage.Host.Pacemaker.Commands.{ResourceGroup}
use arca_storage.Ganesha.{Config, World, Outside}
use arca_storage.Ganesha.Render.{render_config}
use arca_storage.Services.{Store, on_host, update_files}

-- SVMCreate of api/models.py
pub record SvmCreate : Type 0 where
  pub name : Text
  pub vlan_id : ℕ
  pub ip_cidr : Text
  pub gateway : Option Text
  pub mtu : ℕ
  pub root_volume_size_gib : Option ℕ

-- What the service reads of the configuration of cli/lib/config.py.
pub record SvmConfig : Type 0 where
  pub vg_name : Text
  pub thinpool_name : Text
  pub export_dir : Text
  pub parent_if : Text
  pub drbd_resource : Text

-- The machine and the state files, and the files of the exports and of NFS-Ganesha.
pub record Site (W : Type 0) : Type 0 where
  pub store : Store W
  pub ganesha : World

-- `str(e)` of the exceptions of `create_lv` and `format_xfs`
abbrev message : Error → Text
message (lv_exists path) = codes "Logical volume " ++ (path ++ codes " already exists")
message (create_lv_failed stderr) = codes "Failed to create logical volume: " ++ stderr
message (device_missing device) = codes "Device " ++ (device ++ codes " does not exist")
message (format_failed stderr) = codes "Failed to format XFS: " ++ stderr
message _ = []

abbrev pub is_already_exists : Error → Bool
is_already_exists e = has_text (codes "already exists") (lower (message e))

-- f"vol_{name}", a volume where there is a size that is not 0
abbrev pub root_lv : Text → Text
root_lv name = codes "vol_" ++ name

abbrev pub wants_root : Option ℕ → Bool
wants_root none = false
wants_root (some n) = not (nat_eqb n 0)

abbrev pub size_of : Option ℕ → ℕ
size_of none = 0
size_of (some n) = n

-- The explicit gateway, which is checked, or the one that is inferred.
-- What a creation answers: the record without its interface, and with the time.
pub record SvmAnswer : Type 0 where
  pub name : Text
  pub vlan_id : ℕ
  pub ip_cidr : Text
  pub gateway : Text
  pub mtu : ℕ
  pub namespace : Text
  pub vip : Text
  pub status : Text
  pub created_at : Text

abbrev pub svm_answer : Text → Svm → SvmAnswer
svm_answer now svm = record {
  name = svm.name;
  vlan_id = svm.vlan_id;
  ip_cidr = svm.ip_cidr;
  gateway = svm.gateway;
  mtu = svm.mtu;
  namespace = svm.namespace;
  vip = svm.vip;
  status = svm.status;
  created_at = now;
}

unfoldable pub gateway_for : Option Text → Text → Checked Text
gateway_for none ip_cidr = infer_gateway_from_ip_cidr ip_cidr
gateway_for (some g) ip_cidr = elim (validate_ipv4 g) [
  | err e ↦ err e
  | ok u ↦ if is_empty g then infer_gateway_from_ip_cidr ip_cidr else ok g
]

module _ {W : Type 0} where
  abbrev pub on_store : {A : Type 0} → Action (Store W) A → Action (Site W) A
  on_store m s = let (r, store) = m s.store in (r, record s { store = store })

  -- An action on the machine, which touches no file of the program.
  abbrev pub on_machine : {A : Type 0} → Action W A → Action (Site W) A
  on_machine m = on_store (on_host m)

  -- `try: ... except Exception as e: if "already exists" not in str(e).lower(): raise`
  abbrev pub unless_exists : Checked (Unit {0}) × W → Checked (Unit {0}) × W
  unless_exists (ok u, w) = (ok tt, w)
  unless_exists (err e, w) = (if is_already_exists e then ok tt else err e, w)

module _ {W : Type 0} (h : Host W) (sha256 : Text → ℕ) (o : Outside) (cfg : SvmConfig)
    (gcfg : Config) where
  -- The configuration of an SVM without exports.
  abbrev pub render_empty : Text → Action (Site W) (Unit {0})
  render_empty name s = (ok tt, record s { ganesha = (render_config o gcfg name [] s.ganesha).1 })

  -- The logical volume of the SVM's root and its file system.
  unfoldable pub make_root : SvmCreate → Action W (Unit {0})
  make_root d w =
      if wants_root d.root_volume_size_gib
      then unless_exists (
          (do
            lv_path ←
                create_lv h cfg.vg_name (root_lv d.name) (size_of d.root_volume_size_gib) true
                  cfg.thinpool_name
            format_xfs h lv_path [])
            w)
      else (ok tt, w)

  abbrev pub vlan_of : SvmCreate → Text → Text → Vlan
  vlan_of d gateway_ip vlan_ifname = record {
    namespace = d.name;
    parent_if = cfg.parent_if;
    vlan_id = d.vlan_id;
    ip_cidr = d.ip_cidr;
    gateway = some gateway_ip;
    mtu = d.mtu;
    ifname = some vlan_ifname;
  }

  abbrev pub group_of : SvmCreate → Text → Text → Text → ℕ → ResourceGroup
  group_of d gateway_ip vlan_ifname ip_addr prefix = record {
    svm_name = d.name;
    mount_path = rstrip_slash cfg.export_dir ++ b'/' ∷ d.name;
    vlan_id = d.vlan_id;
    ifname = some vlan_ifname;
    ip = ip_addr;
    prefix = prefix;
    gw = gateway_ip;
    mtu = d.mtu;
    parent_if = cfg.parent_if;
    vg_name = cfg.vg_name;
    create_filesystem = wants_root d.root_volume_size_gib;
    drbd_resource_name = cfg.drbd_resource;
    enforce_drbd_constraints = true;
  }

  -- The record that a creation stores.
  unfoldable pub make_svm : Text → SvmCreate → Action (Site W) Svm
  unfolding make_root
  make_svm now d = do
    lift (validate_name d.name)
    lift (validate_vlan (pos d.vlan_id))
    address ← lift (validate_ip_cidr d.ip_cidr)
    gateway_ip ← lift (gateway_for d.gateway d.ip_cidr)
    on_machine (create_namespace h d.name)
    vlan_ifname ← on_machine (allocate_vlan_ifname h sha256 d.name d.vlan_id 256)
    on_machine (attach_vlan h (vlan_of d gateway_ip vlan_ifname))
    render_empty d.name
    on_machine (make_root d)
    on_machine (create_group h sha256 (group_of d gateway_ip vlan_ifname address.0 address.1))
    let svm : Svm = record {
      name = d.name;
      vlan_id = d.vlan_id;
      ip_cidr = d.ip_cidr;
      gateway = gateway_ip;
      mtu = d.mtu;
      namespace = d.name;
      vip = address.0;
      ifname = vlan_ifname;
      status = codes "available";
      created_at = none;
    }
    on_store (update_files (upsert_svm now svm))
    pure svm

  unfoldable pub create_svm : Text → SvmCreate → Action (Site W) SvmAnswer
  unfolding make_svm
  create_svm now d = do svm ← make_svm now d; pure (svm_answer now svm)

  unfoldable pub delete_svm : Text → Action (Site W) (Unit {0})
  delete_svm name = do
    lift (validate_name name)
    on_machine (delete_group h name)
    on_machine (stop_unit h (codes "nfs-ganesha@" ++ name))
    on_machine (delete_namespace h name)
    on_store (update_files (λ files. (F.delete_svm name files).0))

-- The first `limit` items; there is never a next cursor.
unfoldable pub list_svms_page : Option Text → ℕ → Files → List Svm
list_svms_page name limit files = take limit (list_svms name files)
