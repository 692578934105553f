-- ===== src/Services/Svms/Tests.antt =====
-- Requests on the SVMs of a small machine.
use arca_storage.Base.{ℕ, ◌≡◌, none, some, Text, codes, length}
use arca_storage.State.Files.{upsert_svm}
use arca_storage.State.Files as F
use arca_storage.Services.{Leaves}
use arca_storage.Services.Tests.{small_host, new_store, small_config, reloading, empty_world}
use arca_storage.Services.Svms.{SvmCreate, SvmConfig, Site, create_svm, delete_svm}
use arca_storage.Services.Svms.Laws.{Stored, svm_requests-files}

abbrev pub site_config : SvmConfig
site_config = record {
  vg_name = codes "vg";
  thinpool_name = codes "pool";
  export_dir = codes "/exports";
  parent_if = codes "bond0";
  drbd_resource = codes "r0";
}

abbrev pub new_site : Site ℕ
new_site = record { store = new_store; ganesha = empty_world }

abbrev pub web_svm : SvmCreate
web_svm = record {
  name = codes "web";
  vlan_id = 100;
  ip_cidr = codes "10.0.0.5/24";
  gateway = none;
  mtu = 1500;
  root_volume_size_gib = some 10;
}

abbrev pub small_digest : Text → ℕ
small_digest t = length t

svm_requests-files_example :
    Leaves
      (Stored (codes "now") web_svm new_store.files)
      new_store.files
      (create_svm small_host small_digest reloading site_config small_config
        (codes "now")
        web_svm
        new_site).0
      (create_svm small_host small_digest reloading site_config small_config
        (codes "now")
        web_svm
        new_site).1.store.files
    × Leaves
        (λ u after. after ≡ (F.delete_svm (codes "web") new_store.files).0)
        new_store.files
        (delete_svm small_host small_digest reloading site_config small_config
          (codes "web")
          new_site).0
        (delete_svm small_host small_digest reloading site_config small_config
          (codes "web")
          new_site).1.store.files
svm_requests-files_example =
    svm_requests-files small_host small_digest reloading site_config small_config (codes "now")
      (codes "web") web_svm new_site
