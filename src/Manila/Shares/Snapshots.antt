-- ===== src/Manila/Shares/Snapshots.antt =====
-- The snapshots of a share, and shares made from them.
use arca_storage.Base.{
  Bool, false, not, ◌&&◌, Option, none, some, [], Text, codes, list_eqb, nat_order, if◌then◌else◌,
}
use arca_storage.Results.{Result, ok, err}
use arca_storage.Manila.{snapshot_not_found, DriverError, share_backend, manila_exception}
use arca_storage.Manila.Shares.{
  Share, Snapshot, ShareApi, ShareConfig, get_metadata_value, filled, get_svm_for_share, volume_of,
  snapshot_of,
}
use arca_storage.Manila.Shares.Volumes.{finish_share}

abbrev pub bare_share : Text → Share
bare_share share_id = record {
  id = share_id;
  size = 0;
  metadata = [];
  project_id = none;
  extra_specs = none;
}

-- The SVM of a snapshot: its own metadata, or that of its share; without the share only the shared
-- strategy tells, and a strategy that does not exist fails as well.
unfoldable pub svm_of_snapshot : ShareConfig → Snapshot → Result DriverError Text
unfolding get_svm_for_share
svm_of_snapshot cfg snapshot = elim (get_metadata_value snapshot.metadata) [
  | some svm_name ↦ ok svm_name
  | none ↦ elim snapshot.share [
    | some share ↦ get_svm_for_share cfg share
    | none ↦
        if list_eqb cfg.strategy (codes "shared")
        then get_svm_for_share cfg (bare_share snapshot.share_id)
        else err manila_exception
  ]
]

module _ {W : Type 0} (api : ShareApi W) where
  -- `create_snapshot`: the provider location where the answer has one.
  unfoldable pub create_snapshot : ShareConfig → Snapshot → W → Result DriverError (Option Text) × W
  unfolding svm_of_snapshot
  create_snapshot cfg snapshot w = elim (svm_of_snapshot cfg snapshot) [
    | err _ ↦ (err share_backend, w)
    | ok svm_name ↦
        let (r, w1) =
          api.create_snapshot (snapshot_of snapshot.id) svm_name (volume_of snapshot.share_id) w in
        elim r [
          | err _ ↦ (err share_backend, w1)
          | ok location ↦ (ok location, api.persist_snapshot_metadata snapshot.id svm_name w1)
        ]
  ]

  -- `delete_snapshot`: a snapshot that is not there is deleted already.
  unfoldable pub delete_snapshot : ShareConfig → Snapshot → W → Result DriverError (Unit {0}) × W
  unfolding svm_of_snapshot
  delete_snapshot cfg snapshot w = elim (svm_of_snapshot cfg snapshot) [
    | err _ ↦ (err share_backend, w)
    | ok svm_name ↦
        let (r, w') =
          api.delete_snapshot (snapshot_of snapshot.id) svm_name (volume_of snapshot.share_id) w in
        elim r [
          | ok _ ↦ (ok tt, w')
          | err e ↦ elim e [ snapshot_not_found ↦ (ok tt, w') | _ ↦ (err share_backend, w') ]
        ]
  ]

-- The two projects are known and the same.
abbrev pub same_project : Option Text → Option Text → Bool
same_project (some p) (some q) = list_eqb p q
same_project _ _ = false

-- The SVM of a share that is made from a snapshot: the parent's, whose project is checked.
unfoldable pub svm_for_clone : ShareConfig → Share → Option Share → Result DriverError Text
unfolding get_svm_for_share
svm_for_clone cfg share none = err share_backend
svm_for_clone cfg share (some parent) =
    if list_eqb cfg.strategy (codes "per_project")
      && not (same_project (filled parent.project_id) (filled share.project_id))
    then err manila_exception
    else get_svm_for_share cfg parent

-- `parent_share`, or `snapshot.get("share")`
abbrev pub parent_of : Option Share → Snapshot → Option Share
parent_of none snapshot = snapshot.share
parent_of (some parent) snapshot = some parent

-- `create_share_from_snapshot`: the path of its export location.
unfoldable pub create_share_from_snapshot :
    {W : Type 0}
    → ShareApi W
    → ShareConfig
    → Share
    → Snapshot
    → Option Share
    → W
    → Result DriverError Text × W
unfolding svm_for_clone finish_share
create_share_from_snapshot api cfg share snapshot parent_share w =
    elim (svm_for_clone cfg share (parent_of parent_share snapshot)) [
      | err _ ↦ (err share_backend, w)
      | ok svm_name ↦
          let (r, w1) =
            api.clone_volume_from_snapshot (volume_of share.id) svm_name
              (volume_of snapshot.share_id) (snapshot_of snapshot.id) share.size w in
          elim r [
            | err _ ↦ (err share_backend, w1)
            | ok export_path ↦ finish_share api share svm_name export_path w1
          ]
    ]
