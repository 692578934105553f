-- ===== src/Host/Pacemaker.antt =====
-- cli/lib/pacemaker.py: the Pacemaker resources of an SVM.
pub mod Commands
pub mod Filesystem
pub mod Tests
use arca_storage.Base.{
  ℕ, Bool, true, false, not, ◌&&◌, Option, none, some, List, [], ◌∷◌, ◌++◌, Text, codes, contains,
  has_text, is_empty, strip, list_order, nat_order, if◌then◌else◌,
}
use arca_storage.Results.{
  drbd_failed, drbd_master_failed, order_failed, colocation_failed, filesystem_failed, netns_failed,
  ganesha_failed, group_failed, delete_group_failed, ok,
}
use arca_storage.Actions.{Action, pure, ◌>>=◌, ◌>>◌, raise_when}
use arca_storage.Host.{Host, Completed, succeeded, failed, command}
use arca_storage.Host.Netns.{make_vlan_ifname}
use arca_storage.Host.Pacemaker.Commands.{
  ResourceGroup, resource_show, constraint_show, drbd_primitive, drbd_master, create_drbd,
  create_drbd_master, order_text, create_order, colocation_text, create_colocation, group_name,
  fs_resource, netns_resource, ganesha_resource, create_fs, create_netns, create_ganesha, group_add,
}

-- `resources[0]` of a list that is not empty
abbrev pub first_resource : List Text → Text
first_resource [] = []
first_resource (r ∷ rs) = r

-- `ifname or make_vlan_ifname(svm_name, vlan_id)`
abbrev pub resolved_ifname : (Text → ℕ) → ResourceGroup → Text
resolved_ifname sha256 g = elim g.ifname [
  | none ↦ make_vlan_ifname sha256 g.svm_name g.vlan_id 0
  | some name ↦ if is_empty name then make_vlan_ifname sha256 g.svm_name g.vlan_id 0 else name
]

module _ {W : Type 0} (h : Host W) where
  -- `_resource_exists`
  abbrev pub resource_exists : Text → Action W Bool
  resource_exists name = do result ← command h (resource_show name); pure (succeeded result)

  -- `_constraints_text`
  abbrev pub constraints_text : Action W Text
  constraints_text = do
    result ← command h constraint_show
    pure (result.stdout ++ 10 ∷ result.stderr)

  unfoldable pub ensure_drbd_master : Text → Action W Text
  ensure_drbd_master drbd = do
    has_primitive ← resource_exists (drbd_primitive drbd)
    if has_primitive then pure tt else do
      made ← command h (create_drbd drbd)
      raise_when (failed made) (drbd_failed (strip made.stderr))
    has_master ← resource_exists (drbd_master drbd)
    if has_master then pure tt else do
      made ← command h (create_drbd_master drbd)
      raise_when (failed made) (drbd_master_failed (strip made.stderr))
    pure (drbd_master drbd)

  unfoldable pub ensure_order : Text → Text → Action W (Unit {0})
  ensure_order master target = do
    text ← constraints_text
    if has_text (order_text master target) text then pure tt else do
      made ← command h (create_order master target)
      raise_when (failed made) (order_failed (strip made.stderr))

  unfoldable pub ensure_colocation : Text → Text → Action W (Unit {0})
  ensure_colocation group master = do
    text ← constraints_text
    if has_text (colocation_text group master) text then pure tt else do
      made ← command h (create_colocation group master)
      raise_when (failed made) (colocation_failed (strip made.stderr))

  -- The master, where the constraints are asked for.
  unfoldable pub master_step : ResourceGroup → Action W (Option Text)
  master_step g =
      if g.enforce_drbd_constraints
      then (do master ← ensure_drbd_master g.drbd_resource_name; pure (some master))
      else pure none

  -- The Filesystem resource goes into the group only where this call creates it.
  unfoldable pub filesystem_step : ResourceGroup → Action W (List Text)
  filesystem_step g =
      if g.create_filesystem
      then (do
        has_fs ← resource_exists (fs_resource g.svm_name)
        if has_fs then pure [] else do
          made ← command h (create_fs g)
          raise_when (failed made) (filesystem_failed (strip made.stderr))
          pure (fs_resource g.svm_name ∷ []))
      else pure []

  unfoldable pub netns_step : (Text → ℕ) → ResourceGroup → Action W (Unit {0})
  netns_step sha256 g = do
    has_netns ← resource_exists (netns_resource g.svm_name)
    if has_netns then pure tt else do
      made ← command h (create_netns g (resolved_ifname sha256 g))
      raise_when (failed made) (netns_failed (strip made.stderr))

  unfoldable pub ganesha_step : ResourceGroup → Action W (Unit {0})
  ganesha_step g = do
    has_ganesha ← resource_exists (ganesha_resource g.svm_name)
    if has_ganesha then pure tt else do
      made ← command h (create_ganesha g)
      raise_when (failed made) (ganesha_failed (strip made.stderr))

  unfoldable pub constraints_step : ResourceGroup → Option Text → List Text → Action W (Unit {0})
  constraints_step g none resources = pure tt
  constraints_step g (some master) resources = do
    let fs = fs_resource g.svm_name
    let target =
        if g.create_filesystem && contains fs resources then fs else first_resource resources
    ensure_order master target
    ensure_colocation (group_name g.svm_name) master

  -- The group of what there is, for the file system that this call created.
  unfoldable pub complete_group :
      (Text → ℕ) → ResourceGroup → Option Text → List Text → Action W (Unit {0})
  complete_group sha256 g master fs = do
    netns_step sha256 g
    ganesha_step g
    let resources = fs ++ netns_resource g.svm_name ∷ ganesha_resource g.svm_name ∷ []
    added ← command h (group_add (group_name g.svm_name) resources)
    raise_when (failed added) (group_failed (strip added.stderr))
    constraints_step g master resources

  unfoldable pub create_group : (Text → ℕ) → ResourceGroup → Action W (Unit {0})
  create_group sha256 g = do
    has_group ← resource_exists (group_name g.svm_name)
    if has_group
        then pure tt
        else do master ← master_step g; fs ← filesystem_step g; complete_group sha256 g master fs

  unfoldable pub delete_group : Text → Action W (Unit {0})
  delete_group svm_name = do
    has_group ← resource_exists (group_name svm_name)
    if not has_group then pure tt else do
      command h (codes "pcs" ∷ codes "resource" ∷ codes "disable" ∷ group_name svm_name ∷ [])
      gone ← command h (codes "pcs" ∷ codes "resource" ∷ codes "delete" ∷ group_name svm_name ∷ [])
      raise_when (failed gone) (delete_group_failed (strip gone.stderr))
