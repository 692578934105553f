-- ===== src/Manila/Svms/Tests.antt =====
-- Calls for a project on a small cloud.
use arca_storage.Base.{ℕ, suc, ◌≡◌, refl, none, some, [], codes}
use arca_storage.Results.{ok, err}
use arca_storage.Manila.{svm_not_found, network_conflict}
use arca_storage.Manila.Svms.{
  NetworkAllocator, SvmApi, Driver, allocate_per_project_svm, find_or_make, attempts_from,
  attempt_once, clean_up, svm_name_of,
}
use arca_storage.Manila.Svms.Ends.{Ends, allocate_per_project_svm-Ends}
use arca_storage.Manila.Svms.NoLeak.{logged_net, quiet_api, Keeps, allocate_per_project_svm-Keeps}

-- A network allocator that counts its calls and always hands out the same port.
abbrev pub one_port : NetworkAllocator ℕ
one_port = record {
  allocate = λ name attempt w. (
    ok (record {
      vlan_id = 100;
      ip_cidr = codes "10.0.0.5/24";
      gateway = codes "10.0.0.1";
      allocation_id = some (codes "port");
    }),
    suc w,
  );
  deallocate = λ id w. suc w;
}

-- A backend that has no SVM and finds every address taken.
abbrev full_backend : SvmApi ℕ
full_backend = record {
  get_svm = λ name w. (err svm_not_found, w);
  create_svm = λ name a w. (err network_conflict, suc w);
}

abbrev pub new_driver : {W : Type 0} → W → Driver W
new_driver w = record { world = w; cache = λ p. none }

allocate_per_project_svm-Ends_example :
    Ends
      (svm_name_of (codes "svm-") (codes "p1"))
      (allocate_per_project_svm one_port full_backend (codes "svm-") (codes "p1") (new_driver 0)).0
allocate_per_project_svm-Ends_example =
    allocate_per_project_svm-Ends one_port full_backend (codes "svm-") (codes "p1") (new_driver 0)

-- Three attempts: nine calls.
nine_calls :
    (allocate_per_project_svm one_port full_backend
      (codes "svm-")
      (codes "p1")
      (new_driver 0)).1.world
    ≡ 9
unfolding allocate_per_project_svm find_or_make attempts_from attempt_once clean_up
nine_calls = refl

allocate_per_project_svm-Keeps_example :
    let r =
      allocate_per_project_svm
        (logged_net one_port)
        (quiet_api full_backend)
        (codes "svm-")
        (codes "p1")
        (new_driver (0, [])) in
    Keeps (codes "p1") r.0 r.1
allocate_per_project_svm-Keeps_example =
    allocate_per_project_svm-Keeps one_port full_backend (codes "svm-") (codes "p1")
      (new_driver (0, [])) refl refl
