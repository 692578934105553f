-- ===== src/Manila/Shares/Tests.antt =====
-- Shares of a project on a small cloud.
use arca_storage.Base.{ℕ, ◌≡◌, refl, Option, none, some, [], Text, codes, list_eqb, pos, arith}
use arca_storage.Results.{Result, ok, err}
use arca_storage.Manila.{ApiError, share_not_found}
use arca_storage.Standalone.Used.{number}
use arca_storage.Manila.Svms.{SvmApi, svm_name_of, allocate_per_project_svm, find_or_make}
use arca_storage.Manila.Svms.Tests.{one_port, new_driver}
use arca_storage.Manila.Shares.{
  Share, Snapshot, ShareApi, ShareConfig, get_svm_for_share, get_metadata_value,
  ensure_svm_for_share, filled, apply_qos_to_share,
}
use arca_storage.Manila.Shares.Volumes.{finish_share}
use arca_storage.Manila.Shares.Snapshots.{create_share_from_snapshot, svm_for_clone}
use arca_storage.Manila.Shares.Isolation.{
  svm_named, create_share_from_snapshot-isolated, ensure_svm_for_share-same,
}

-- A backend on which every volume that is made has this path.
abbrev the_path : Text
the_path = codes "10.0.0.5:/exports/new"

abbrev shares : ShareApi ℕ
shares = record {
  create_volume = λ name svm size w. (ok (some the_path), w);
  get_volume = λ name svm w. (err share_not_found, w);
  delete_volume = λ name svm w. (ok tt, w);
  resize_volume = λ name svm size w. (ok tt, w);
  create_snapshot = λ name svm volume w. (ok none, w);
  delete_snapshot = λ name svm volume w. (ok tt, w);
  clone_volume_from_snapshot = λ name svm source snapshot size w. (ok (some the_path), w);
  apply_qos = λ volume svm l w. (ok tt, w);
  persist_share_metadata = λ id svm w. w;
  persist_snapshot_metadata = λ id svm w. w;
}

abbrev pub config : ShareConfig
config = record {
  strategy = codes "per_project";
  default_svm = codes "default";
  svm_prefix = codes "svm-";
}

abbrev pub share : Text → Share
share id = record {
  id = id;
  size = 10;
  metadata = [];
  project_id = some (codes "p1");
  extra_specs = none;
}

abbrev pub snapshot : Snapshot
snapshot = record {
  id = codes "s1";
  share_id = codes "old";
  metadata = [];
  share = some (share (codes "old"));
}

cloned :
    (create_share_from_snapshot shares config (share (codes "new")) snapshot none 0).0 ≡ ok the_path
unfolding create_share_from_snapshot svm_for_clone get_svm_for_share get_metadata_value finish_share
    apply_qos_to_share list_eqb
cloned = refl

create_share_from_snapshot-isolated_example :
    (parent : Share) × (p svm : Text) × (some (share (codes "old")) ≡ some parent)
    × (filled parent.project_id ≡ some p)
    × (some (codes "p1") ≡ some p)
    × (svm ≡ svm_named (get_metadata_value parent.metadata) (svm_name_of (codes "svm-") p))
    × (◌≡◌ {A = Result ApiError (Option Text)} (ok (some the_path)) (ok (some the_path)))
create_share_from_snapshot-isolated_example =
    create_share_from_snapshot-isolated shares config (share (codes "new")) snapshot none 0 the_path
      refl cloned

-- A backend that has every SVM.
abbrev ready : SvmApi ℕ
ready = record {
  get_svm = λ name w. (
    ok (record { vlan_id = number (pos 100); vip = some (codes "10.0.0.5"); ip_cidr = none }),
    w,
  );
  create_svm = λ name a w. (err share_not_found, w);
}

found :
    (ensure_svm_for_share one_port ready config (share (codes "new")) (new_driver 0)).0
    ≡ ok (some (codes "svm-p1"))
unfolding ensure_svm_for_share allocate_per_project_svm find_or_make get_metadata_value list_eqb
found = refl

ensure_svm_for_share-same_example :
    get_svm_for_share config (share (codes "new")) ≡ ok (codes "svm-p1")
ensure_svm_for_share-same_example =
    ensure_svm_for_share-same one_port ready config (share (codes "new")) (new_driver 0)
      (codes "svm-p1") (λ p entry e. absurd (grind (arith, e))) found
