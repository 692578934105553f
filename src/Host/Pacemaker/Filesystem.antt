-- ===== src/Host/Pacemaker/Filesystem.antt =====
-- What becomes of a Filesystem resource that exists already.
use arca_storage.Base.{
  ℕ, ◌≡◌, true, false, Option, none, some, List, [], ◌∷◌, Text, codes, contains, All, list_eqb,
  nat_order, list_order, arith, if◌then◌else◌,
}
use arca_storage.Host.{Host, succeeded}
use arca_storage.Host.Logged.{logged}
use arca_storage.Host.Pacemaker.Commands.{ResourceGroup, resource_show, fs_resource}
use arca_storage.Host.Pacemaker.{
  ensure_drbd_master, ensure_order, ensure_colocation, master_step, filesystem_step, netns_step,
  ganesha_step, constraints_step, complete_group, create_group,
}

-- The resources that a command puts into a group.
abbrev pub grouped : List Text → List Text
grouped (pcs ∷ resource ∷ group ∷ add ∷ name ∷ resources) =
    if list_eqb group (codes "group") then resources else []
grouped _ = []

-- The command does not put the SVM's file system into a group.
abbrev pub LeavesOut : Text → List Text → Type 0
LeavesOut svm cmd = contains (fs_resource svm) (grouped cmd) ≡ false

module _ {W : Type 0} (h : Host W) (g : ResourceGroup) where
  abbrev Log : Type 0
  Log = W × List (List Text)

  abbrev Quiet : Log → Type 0
  Quiet s = All (LeavesOut g.svm_name) s.1

  drbd-LeavesOut :
      (drbd : Text) (s : Log) → Quiet s → Quiet (ensure_drbd_master (logged h) drbd s).1
  unfolding ensure_drbd_master list_eqb
  drbd-LeavesOut drbd s p = ground arith

  order-LeavesOut : (m t : Text) (s : Log) → Quiet s → Quiet (ensure_order (logged h) m t s).1
  unfolding ensure_order list_eqb
  order-LeavesOut m t s p = ground arith

  colocation-LeavesOut :
      (m t : Text) (s : Log) → Quiet s → Quiet (ensure_colocation (logged h) m t s).1
  unfolding ensure_colocation list_eqb
  colocation-LeavesOut m t s p = ground arith

  netns-LeavesOut :
      (sha256 : Text → ℕ) (s : Log) → Quiet s → Quiet (netns_step (logged h) sha256 g s).1
  unfolding netns_step list_eqb
  netns-LeavesOut sha256 s p = ground arith

  ganesha-LeavesOut : (s : Log) → Quiet s → Quiet (ganesha_step (logged h) g s).1
  unfolding ganesha_step list_eqb
  ganesha-LeavesOut s p = ground arith

  master-LeavesOut : (s : Log) → Quiet s → Quiet (master_step (logged h) g s).1
  unfolding master_step
  master-LeavesOut s p = ground (arith, drbd-LeavesOut g.drbd_resource_name s p)

  constraints-LeavesOut :
      (m : Option Text) (rs : List Text) (s : Log)
      → Quiet s
      → Quiet (constraints_step (logged h) g m rs s).1
  unfolding constraints_step
  constraints-LeavesOut none rs s p = p
  constraints-LeavesOut (some m) rs s p = grind (arith, order-LeavesOut, colocation-LeavesOut)

  complete-LeavesOut :
      (sha256 : Text → ℕ) (m : Option Text) (s : Log)
      → Quiet s
      → Quiet (complete_group (logged h) sha256 g m [] s).1
  unfolding complete_group list_eqb
  complete-LeavesOut sha256 m s p =
      grind (arith, netns-LeavesOut, ganesha-LeavesOut, constraints-LeavesOut)

  -- A Filesystem resource that exists before the group does is never put into it: where every
  -- `pcs resource show` of it succeeds, no command of the call adds it to a group.
  pub create_group-LeavesOut :
      (sha256 : Text → ℕ) (s : W × List (List Text))
      → ((w : W) → succeeded (h.run (resource_show (fs_resource g.svm_name)) w).0 ≡ true)
      → All (LeavesOut g.svm_name) s.1
      → All (LeavesOut g.svm_name) (create_group (logged h) sha256 g s).1.1
  unfolding create_group filesystem_step list_eqb
  create_group-LeavesOut sha256 s shown p =
      grind (arith, master-LeavesOut, complete-LeavesOut, shown)
