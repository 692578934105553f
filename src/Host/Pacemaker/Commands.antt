-- ===== src/Host/Pacemaker/Commands.antt =====
-- The names of the Pacemaker resources and the commands that create them.
use arca_storage.Base.{ℕ, Bool, Option, List, [], ◌∷◌, ◌++◌, Text, codes, decimal}

-- The arguments of `create_group`.
pub record ResourceGroup : Type 0 where
  pub svm_name : Text
  pub mount_path : Text
  pub vlan_id : ℕ
  pub ifname : Option Text
  pub ip : Text
  pub prefix : ℕ
  pub gw : Text
  pub mtu : ℕ
  pub parent_if : Text
  pub vg_name : Text
  pub create_filesystem : Bool
  pub drbd_resource_name : Text
  pub enforce_drbd_constraints : Bool

abbrev pub drbd_primitive : Text → Text
drbd_primitive drbd = codes "p_drbd_" ++ drbd

abbrev pub drbd_master : Text → Text
drbd_master drbd = codes "ms_drbd_" ++ drbd

abbrev pub group_name : Text → Text
group_name svm = codes "g_svm_" ++ svm

abbrev pub fs_resource : Text → Text
fs_resource svm = codes "fs_" ++ svm

abbrev pub netns_resource : Text → Text
netns_resource svm = codes "netns_" ++ svm

abbrev pub ganesha_resource : Text → Text
ganesha_resource svm = codes "ganesha_" ++ svm

-- A `pcs resource` command.
abbrev pub pcs_resource : List Text → List Text
pcs_resource args = codes "pcs" ∷ codes "resource" ∷ args

-- op monitor interval=10s
abbrev pub monitor : List Text
monitor = codes "op" ∷ codes "monitor" ∷ codes "interval=10s" ∷ []

abbrev pub resource_show : Text → List Text
resource_show name = pcs_resource (codes "show" ∷ name ∷ [])

abbrev pub constraint_show : List Text
constraint_show = codes "pcs" ∷ codes "constraint" ∷ codes "show" ∷ codes "--full" ∷ []

abbrev pub create_drbd : Text → List Text
create_drbd drbd = pcs_resource (
    codes "create"
    ∷ drbd_primitive drbd
    ∷ codes "ocf:linbit:drbd"
    ∷ (codes "drbd_resource=" ++ drbd)
    ∷ codes "op"
    ∷ codes "monitor"
    ∷ codes "interval=15s"
    ∷ codes "role=Master"
    ∷ [])

abbrev pub create_drbd_master : Text → List Text
create_drbd_master drbd = pcs_resource (
    codes "master"
    ∷ drbd_master drbd
    ∷ drbd_primitive drbd
    ∷ codes "master-max=1"
    ∷ codes "master-node-max=1"
    ∷ codes "clone-max=2"
    ∷ codes "clone-node-max=1"
    ∷ [])

abbrev pub promote : Text → Text
promote master = master ++ codes ":promote"

abbrev pub start : Text → Text
start target = target ++ codes ":start"

abbrev pub master_role : Text → Text
master_role master = master ++ codes ":Master"

-- What `ensure_order` looks for.
abbrev pub order_text : Text → Text → Text
order_text master target = codes "order " ++ (promote master ++ b' ' ∷ start target)

abbrev pub create_order : Text → Text → List Text
create_order master target =
    codes "pcs" ∷ codes "constraint" ∷ codes "order" ∷ promote master ∷ start target ∷ []

-- What `ensure_colocation` looks for.
abbrev pub colocation_text : Text → Text → Text
colocation_text group master =
    codes "colocation " ++ (group ++ (codes " with " ++ master_role master))

abbrev pub create_colocation : Text → Text → List Text
create_colocation group master =
    codes "pcs"
    ∷ codes "constraint"
    ∷ codes "colocation"
    ∷ codes "add"
    ∷ group
    ∷ codes "with"
    ∷ master_role master
    ∷ []

abbrev pub create_fs : ResourceGroup → List Text
create_fs g = pcs_resource (
    codes "create"
    ∷ fs_resource g.svm_name
    ∷ codes "ocf:heartbeat:Filesystem"
    ∷ (codes "device=/dev/" ++ (g.vg_name ++ (codes "/vol_" ++ g.svm_name)))
    ∷ (codes "directory=" ++ g.mount_path)
    ∷ codes "fstype=xfs"
    ∷ monitor)

abbrev pub create_netns : ResourceGroup → Text → List Text
create_netns g ifname = pcs_resource (
    codes "create"
    ∷ netns_resource g.svm_name
    ∷ codes "ocf:local:NetnsVlan"
    ∷ (codes "ns=" ++ g.svm_name)
    ∷ (codes "vlan_id=" ++ decimal g.vlan_id)
    ∷ (codes "parent_if=" ++ g.parent_if)
    ∷ (codes "ifname=" ++ ifname)
    ∷ (codes "ip=" ++ g.ip)
    ∷ (codes "prefix=" ++ decimal g.prefix)
    ∷ (codes "gw=" ++ g.gw)
    ∷ (codes "mtu=" ++ decimal g.mtu)
    ∷ monitor)

abbrev pub create_ganesha : ResourceGroup → List Text
create_ganesha g = pcs_resource (
    codes "create"
    ∷ ganesha_resource g.svm_name
    ∷ (codes "systemd:nfs-ganesha@" ++ g.svm_name)
    ∷ monitor)

abbrev pub group_add : Text → List Text → List Text
group_add group resources = pcs_resource (codes "group" ∷ codes "add" ∷ group ∷ resources)
