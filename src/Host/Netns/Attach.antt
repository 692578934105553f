-- ===== src/Host/Netns/Attach.antt =====
-- `attach_vlan` and `_configure_ip`.
use arca_storage.Base.{
  ℕ, Option, none, some, List, [], ◌∷◌, ◌++◌, Text, codes, decimal, has_text, is_empty, nat_eqb,
  if◌then◌else◌,
}
use arca_storage.Results.{command_failed}
use arca_storage.Actions.{Action, pure, ◌>>=◌, ◌>>◌, raise_when}
use arca_storage.Host.{Host, Completed, succeeded, failed, command}
use arca_storage.Host.Netns.{link_show}

-- A command inside a namespace.
abbrev pub in_namespace : Text → List Text → List Text
in_namespace namespace args =
    codes "ip" ∷ codes "netns" ∷ codes "exec" ∷ namespace ∷ codes "ip" ∷ args

abbrev pub link_move : Text → Text → List Text
link_move vlan_if namespace =
    codes "ip" ∷ codes "link" ∷ codes "set" ∷ vlan_if ∷ codes "netns" ∷ namespace ∷ []

abbrev pub link_add : Text → Text → ℕ → List Text
link_add parent_if vlan_if vlan_id =
    codes "ip"
    ∷ codes "link"
    ∷ codes "add"
    ∷ codes "link"
    ∷ parent_if
    ∷ codes "name"
    ∷ vlan_if
    ∷ codes "type"
    ∷ codes "vlan"
    ∷ codes "id"
    ∷ decimal vlan_id
    ∷ []

-- What `attach_vlan` configures.
pub record Vlan : Type 0 where
  pub namespace : Text
  pub parent_if : Text
  pub vlan_id : ℕ
  pub ip_cidr : Text
  pub gateway : Option Text
  pub mtu : ℕ
  pub ifname : Option Text

-- f"{parent_if}.{vlan_id}" where there is no name
abbrev pub vlan_if : Vlan → Text
vlan_if v = elim v.ifname [
  | none ↦ v.parent_if ++ b'.' ∷ decimal v.vlan_id
  | some name ↦ if is_empty name then v.parent_if ++ b'.' ∷ decimal v.vlan_id else name
]

module _ {W : Type 0} (h : Host W) where
  -- `subprocess.run(cmd, check=True)`
  abbrev pub checked : List Text → Action W (Unit {0})
  checked cmd = do result ← command h cmd; raise_when (failed result) (command_failed cmd)

  -- The default route is replaced; that there is none to remove does no harm.
  abbrev pub set_gateway : Text → Option Text → Action W (Unit {0})
  set_gateway namespace none = pure tt
  set_gateway namespace (some gateway) = if is_empty gateway then pure tt else do
    command h (in_namespace namespace (codes "route" ∷ codes "del" ∷ codes "default" ∷ []))
    checked (
        in_namespace namespace
          (codes "route" ∷ codes "add" ∷ codes "default" ∷ codes "via" ∷ gateway ∷ []))

  unfoldable pub configure_ip : Vlan → Action W (Unit {0})
  configure_ip v = do
    let interface = vlan_if v
    if nat_eqb v.mtu 1500
        then pure tt
        else checked (
            in_namespace v.namespace
              (codes "link" ∷ codes "set" ∷ interface ∷ codes "mtu" ∷ decimal v.mtu ∷ []))
    shown ← command h (in_namespace v.namespace (codes "addr" ∷ codes "show" ∷ interface ∷ []))
    if has_text v.ip_cidr shown.stdout
        then pure tt
        else checked (
            in_namespace v.namespace
              (codes "addr" ∷ codes "add" ∷ v.ip_cidr ∷ codes "dev" ∷ interface ∷ []))
    checked (in_namespace v.namespace (codes "link" ∷ codes "set" ∷ interface ∷ codes "up" ∷ []))
    set_gateway v.namespace v.gateway

  -- An interface that is in the root namespace already is moved and not made.
  abbrev pub place_vlan : Vlan → Completed → Action W (Unit {0})
  place_vlan v result =
      if succeeded result
      then (do
        inside ← command h (in_namespace v.namespace (codes "link" ∷ codes "show" ∷ vlan_if v ∷ []))
        if succeeded inside then pure tt else checked (link_move (vlan_if v) v.namespace))
      else (do
        checked (link_add v.parent_if (vlan_if v) v.vlan_id)
        checked (link_move (vlan_if v) v.namespace))

  unfoldable pub attach_vlan : Vlan → Action W (Unit {0})
  unfolding configure_ip
  attach_vlan v = do result ← command h (link_show (vlan_if v)); place_vlan v result; configure_ip v
