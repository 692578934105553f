-- ===== src/Host/Pacemaker/Tests.antt =====
-- A group on a machine where every resource exists but the group.
use arca_storage.Base.{
  has_text, contains, list_order, Bool, false, List, ◌∷◌, ◌≡◌, Text, list_eqb, nat_order,
  if◌then◌else◌, ℕ, suc, refl, true, none, [], codes, length, All,
}
use arca_storage.Results.{Checked, ok}
use arca_storage.Host.{Host}
use arca_storage.Host.Logged.{logged}
use arca_storage.Host.Pacemaker.{
  create_group, master_step, ensure_drbd_master, filesystem_step, complete_group, netns_step,
  ganesha_step, constraints_step, ensure_order, ensure_colocation,
}
use arca_storage.Host.Pacemaker.Commands.{
  ResourceGroup, group_add, netns_resource, ganesha_resource,
}
use arca_storage.Host.Pacemaker.Filesystem.{LeavesOut, create_group-LeavesOut}

-- A command line that ends in this word.
abbrev ends_in : Text → List Text → Bool
ends_in word [] = false
ends_in word (t ∷ []) = list_eqb t word
ends_in word (t ∷ u ∷ ts) = ends_in word (u ∷ ts)

abbrev all_but_group : Host ℕ
all_but_group = record {
  run = λ cmd w. (
    record {
      returncode = if ends_in (codes "g_svm_web") cmd then 1 else 0;
      stdout = [];
      stderr = [];
    },
    suc w,
  );
  exists = λ path w. true;
  makedirs = λ path w. w;
}

abbrev web_group : ResourceGroup
web_group = record {
  svm_name = codes "web";
  mount_path = codes "/exports/web";
  vlan_id = 100;
  ifname = none;
  ip = codes "10.0.0.5";
  prefix = 24;
  gw = codes "10.0.0.1";
  mtu = 1500;
  parent_if = codes "bond0";
  vg_name = codes "vg";
  create_filesystem = true;
  drbd_resource_name = codes "r0";
  enforce_drbd_constraints = true;
}

create_group-LeavesOut_example :
    All
      (LeavesOut (codes "web"))
      (create_group (logged all_but_group) (λ t. length t) web_group (0, [])).1.1
unfolding list_eqb
create_group-LeavesOut_example =
    create_group-LeavesOut all_but_group web_group (λ t. length t) (0, []) (λ w. refl) tt

abbrev web_run : Checked (Unit {0}) × (ℕ × List (List Text))
web_run = create_group (logged all_but_group) (λ t. length t) web_group (0, [])

-- The group is made, of the other two resources.
group_made :
    (web_run.0 ≡ ok tt)
    × (contains
          (group_add
            (codes "g_svm_web")
            (netns_resource (codes "web") ∷ ganesha_resource (codes "web") ∷ []))
          web_run.1.1
        ≡ true)
unfolding create_group list_eqb master_step ensure_drbd_master filesystem_step complete_group
    netns_step ganesha_step constraints_step ensure_order has_text ensure_colocation
group_made = (refl, refl)
