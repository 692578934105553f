-- ===== src/Manila/Served/Tests.antt =====
-- The client over a small machine.
use arca_storage.Base.{
  ℕ, ◌≡◌, refl, none, some, [], ◌∷◌, Text, codes, list_eqb, has_text, true, false, pos,
}
use arca_storage.Results.{Error, ok, err}
use arca_storage.Validators.{matches_name, matches_tail}
use arca_storage.Services.{Store}
use arca_storage.Services.Tests.{
  small_host, new_store, small_config, reloading, empty_world, storage,
}
use arca_storage.Services.Svms.Tests.{site_config, new_site, web_svm, small_digest}
use arca_storage.Services.Svms as S
use arca_storage.Services.Volumes.{VolumeCreate}
use arca_storage.Services.Volumes as V
use arca_storage.Services.Snapshots as N
use arca_storage.Services.Exports.{ExportCreate}
use arca_storage.Services.Exports as E
use arca_storage.Standalone.Used.{number}
use arca_storage.Manila.{other, share_not_found, share_backend, network_config}
use arca_storage.Manila.Svms.{NetworkAllocator, SvmApi, Driver}
use arca_storage.Manila.Shares.{ShareApi, get_svm_for_share, get_metadata_value}
use arca_storage.Manila.Shares.Tests.{config, share, snapshot}
use arca_storage.Manila.Shares.Volumes.{create_on, create_share, delete_share}
use arca_storage.Manila.Shares.Snapshots.{
  svm_of_snapshot, create_share_from_snapshot, delete_snapshot,
}
use arca_storage.Manila.Client.{response_error}
use arca_storage.Manila.Served.{create_volume, if_accepted, result_of, request_of, served}
use arca_storage.Manila.Served.Creations.{or_other, creations-other}
use arca_storage.Manila.Served.Deletions.{outcome, deletions-served}
use arca_storage.Manila.Served.Shares.{create_share-never}
use arca_storage.Api

abbrev says_nothing : Error → Text
says_nothing e = []

abbrev data_volume : VolumeCreate
data_volume = record {
  name = codes "data";
  svm = codes "web";
  size_gib = 20;
  thin = true;
  fs_type = codes "xfs";
}

abbrev data_export : ExportCreate
data_export = record {
  svm = codes "web";
  volume = codes "data";
  client = codes "10.0.0.0/24";
  access = codes "rw";
  root_squash = false;
  sec = codes "sys" ∷ [];
}

creations-other_example :
    (result_of says_nothing
        (codes "/v1/svms")
        (Api.create_svm small_host small_digest reloading site_config small_config
          (codes "now")
          web_svm
          new_site).0
      ≡ or_other
          (S.create_svm small_host small_digest reloading site_config small_config
            (codes "now")
            web_svm
            new_site).0)
    × (result_of says_nothing
          (codes "/v1/volumes")
          (Api.create_volume small_host storage (codes "now") data_volume new_store).0
        ≡ or_other (V.create_volume small_host storage (codes "now") data_volume new_store).0)
    × (result_of says_nothing
          (codes "/v1/exports")
          (Api.add_export reloading small_config data_export empty_world).0
        ≡ or_other (E.add_export reloading small_config data_export empty_world).0)
creations-other_example =
    creations-other small_host small_digest reloading site_config small_config storage says_nothing
      (codes "now") web_svm data_volume data_export new_site new_store empty_world

-- The calls that the API does not serve.
abbrev outside_api : ShareApi (Store ℕ)
outside_api = record {
  create_volume = λ name svm size w. (err share_not_found, w);
  get_volume = λ name svm w. (err share_not_found, w);
  delete_volume = λ name svm w. (err share_not_found, w);
  resize_volume = λ name svm size w. (err share_not_found, w);
  create_snapshot = λ name svm volume w. (err share_not_found, w);
  delete_snapshot = λ name svm volume w. (err share_not_found, w);
  clone_volume_from_snapshot = λ name svm source snapshot size w. (err share_not_found, w);
  apply_qos = λ volume svm l w. (ok tt, w);
  persist_share_metadata = λ id svm w. w;
  persist_snapshot_metadata = λ id svm w. w;
}

known : get_svm_for_share config (share (codes "new")) ≡ ok (codes "svm-p1")
unfolding get_svm_for_share get_metadata_value list_eqb
known = refl

known_of_snapshot : svm_of_snapshot config snapshot ≡ ok (codes "svm-p1")
unfolding svm_of_snapshot get_svm_for_share get_metadata_value list_eqb
known_of_snapshot = refl

plain : has_text (codes "/volumes/") (codes "/v1/snapshots/snapshot-s1") ≡ false
unfolding has_text
plain = refl

deletions-served_example :
    let v = V.delete_volume small_host storage (codes "share-new") (codes "svm-p1") new_store in
    let n =
      N.delete_snapshot small_host storage
        (codes "snapshot-s1")
        (codes "svm-p1")
        (codes "share-old")
        new_store in
    (delete_share
        (served small_host storage (codes "now") says_nothing outside_api)
        config
        (share (codes "new"))
        new_store
      ≡ (outcome v.0, v.1))
    × (delete_snapshot
          (served small_host storage (codes "now") says_nothing outside_api)
          config
          snapshot
          new_store
        ≡ (outcome n.0, n.1))
deletions-served_example =
    deletions-served small_host storage (codes "now") says_nothing outside_api config
      (share (codes "new")) snapshot (codes "svm-p1") (codes "svm-p1") new_store known
      known_of_snapshot plain

-- A cloud that has every SVM.
abbrev no_network : NetworkAllocator (Store ℕ)
no_network = record { allocate = λ id n w. (err network_config, w); deallocate = λ id w. w }

abbrev ready : SvmApi (Store ℕ)
ready = record {
  get_svm = λ name w. (
    ok (record { vlan_id = number (pos 100); vip = some (codes "10.0.0.5"); ip_cidr = none }),
    w,
  );
  create_svm = λ name a w. (err share_not_found, w);
}

abbrev new_driver : Driver (Store ℕ)
new_driver = record { world = new_store; cache = λ p. none }

create_share-never_example :
    let over = served small_host storage (codes "now") says_nothing outside_api in
    ((create_share over no_network ready config (share (codes "new")) new_driver).0
      ≡ err share_backend)
    × (create_on over (share (codes "new")) (codes "web") new_store ≡ (
      err share_backend,
      (V.create_volume small_host storage
          (codes "now")
          (request_of (codes "share-new") (codes "web") 10)
          new_store).1,
    ))
    × (create_share_from_snapshot over config (share (codes "new")) snapshot none new_store
        ≡ (err share_backend, new_store))
unfolding matches_name matches_tail
create_share-never_example =
    create_share-never small_host storage (codes "now") says_nothing outside_api no_network ready
      config (share (codes "new")) (codes "web") snapshot none new_driver new_store

-- A volume of no size reaches no service.
no_size :
    create_volume small_host storage
      (codes "now")
      says_nothing
      (codes "share-new")
      (codes "web")
      0
      new_store
    ≡ (err (other []), new_store)
unfolding create_volume if_accepted matches_name matches_tail response_error
no_size = refl
