-- ===== src/State/Tests.antt =====
-- The state files at small tables.
use arca_storage.Base.{
  ◌≡◌, ◌≢◌, refl, true, false, Bool, none, List, [], ◌∷◌, Text, codes, list_eqb, list_eqb_iff,
  nat_order, arith,
}
use arca_storage.State.Files.{Volume, Files, volume_key, is_volume}
use arca_storage.State.Files.Refine.{
  IsSane, Op, put_volume, drop_volume, run_op, run_ops, run_ops-IsSane,
}
use arca_storage.State.Files.Maps.{maps_of, spec_op, SameMaps, run_op-refines}

differ : (t u : Text) → list_eqb t u ≡ false → t ≢ u
differ t u h e = cc (h, (list_eqb_iff t u).1 e)

abbrev volume_named : Text → Volume
volume_named name = record {
  svm = codes "web";
  name = name;
  size_gib = 10;
  thin = true;
  fs_type = codes "xfs";
  mount_path = codes "/exports/web/x";
  lv_path = codes "/dev/vg/x";
  lv_name = codes "x";
  status = codes "available";
  created_at = none;
}

abbrev no_files : Files
no_files = record { svms = none; volumes = none; snapshots = none }

no_files-IsSane : IsSane no_files
no_files-IsSane = record { svms = tt; volumes = tt; snapshots = tt }

abbrev two_puts : List Op
two_puts =
    put_volume (codes "t0") (volume_named (codes "b"))
    ∷ put_volume (codes "t1") (volume_named (codes "a"))
    ∷ drop_volume (codes "web") (codes "b")
    ∷ []

run_ops-IsSane_example : IsSane (run_ops two_puts no_files)
run_ops-IsSane_example = run_ops-IsSane two_puts no_files no_files-IsSane

run_op-refines_example :
    SameMaps
      (maps_of (run_op (drop_volume (codes "web") (codes "a")) (run_ops two_puts no_files)))
      (spec_op (drop_volume (codes "web") (codes "a")) (maps_of (run_ops two_puts no_files)))
run_op-refines_example =
    run_op-refines (drop_volume (codes "web") (codes "a")) (run_ops two_puts no_files)

abbrev some_files : Files
some_files = run_ops two_puts no_files

key_ba : volume_key (volume_named (codes "b")) ≢ volume_key (volume_named (codes "a"))
unfolding list_eqb
key_ba e = differ (codes "b") (codes "a") refl (ground arith)

abbrev same_volume : Volume → Volume → Bool
same_volume i r = is_volume r.svm r.name i
