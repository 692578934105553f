-- ===== src/Services/Snapshots/Format.antt =====
-- Which commands a clone runs.
use arca_storage.Base.{
  ◌≡◌, Bool, false, List, [], ◌∷◌, Text, codes, All, list_eqb, nat_order, arith,
}
use arca_storage.Host.{Host}
use arca_storage.Host.Logged.{logged}
use arca_storage.Host.Lvm.{create_snapshot_lv}
use arca_storage.Host.Xfs.{mount_xfs}
use arca_storage.Services.{StorageConfig, Store}
use arca_storage.Services.Snapshots.{VolumeCloneCreate, clone_volume_from_snapshot}

abbrev pub is_mkfs : List Text → Bool
is_mkfs [] = false
is_mkfs (c ∷ args) = list_eqb c (codes "mkfs.xfs")

abbrev pub IsPlain : List Text → Type 0
IsPlain cmd = is_mkfs cmd ≡ false

module _ {W : Type 0} (h : Host W) where
  snapshot_lv-IsPlain :
      (vg source snap : Text) (s : W × List (List Text))
      → All IsPlain s.1
      → All IsPlain (create_snapshot_lv (logged h) vg source snap s).1.1
  unfolding create_snapshot_lv list_eqb
  snapshot_lv-IsPlain vg source snap s p = ground arith

  mount-IsPlain :
      (device mount_point : Text) (s : W × List (List Text))
      → All IsPlain s.1
      → All IsPlain (mount_xfs (logged h) device mount_point s).1.1
  unfolding mount_xfs list_eqb
  mount-IsPlain device mount_point s p = ground arith

  -- A clone never makes a file system: if no command that the machine was given before was mkfs.xfs,
  -- none is after the request, however it ends.
  pub clone-no_mkfs :
      (cfg : StorageConfig) (now : Text) (d : VolumeCloneCreate) (s : Store (W × List (List Text)))
      → All IsPlain s.host.1
      → All IsPlain (clone_volume_from_snapshot (logged h) cfg now d s).1.host.1
  unfolding clone_volume_from_snapshot
  clone-no_mkfs cfg now d s p = grind (arith, snapshot_lv-IsPlain, mount-IsPlain)
