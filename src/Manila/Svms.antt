-- ===== src/Manila/Svms.antt =====
-- The SVM of a project: `_allocate_per_project_svm`, under the lock that it takes.
pub mod Ends
pub mod NoLeak
pub mod Tests
use arca_storage.Base.{
  ℕ, zero, suc, ◌+◌, Bool, true, false, Option, none, some, List, [], ◌∷◌, ◌++◌, Text, list_eqb,
  is_empty, nat_eqb, pos, nat_order, if◌then◌else◌,
}
use arca_storage.Results.{Result, ok, err}
use arca_storage.Standalone.{NetworkAllocation}
use arca_storage.Standalone.Used.{JsonVlan, number, SvmInfo}
use arca_storage.Manila.{
  ApiError, svm_not_found, svm_exists, share_not_found, share_exists, snapshot_not_found,
  network_conflict, pool_exhausted, network_config, other, DriverError, raised, share_backend,
}

-- The network allocator of the configuration: `allocate` of an attempt, and `deallocate`, whose
-- exceptions are only logged.
pub record NetworkAllocator (W : Type 0) : Type 0 where
  pub allocate : Text → ℕ → W → Result ApiError NetworkAllocation × W
  pub deallocate : Text → W → W

-- The calls of the API client on SVMs; an answer is what the driver reads of it.
pub record SvmApi (W : Type 0) : Type 0 where
  pub get_svm : Text → W → Result ApiError SvmInfo × W
  pub create_svm : Text → NetworkAllocation → W → Result ApiError SvmInfo × W

-- An entry of `_per_project_svm_cache`.
pub record CachedSvm : Type 0 where
  pub svm_name : Text
  pub vlan_id : JsonVlan
  pub ip : Option Text
  pub allocation_id : Option Text

-- What is outside the driver, and the driver's cache by project.
pub record Driver (W : Type 0) : Type 0 where
  pub world : W
  pub cache : Text → Option CachedSvm

-- `_cache[project_id] = entry`
abbrev pub cache_put : {W : Type 0} → Text → CachedSvm → Driver W → Driver W
cache_put project_id entry s = record s {
  cache = λ p. if list_eqb p project_id then some entry else s.cache p;
}

abbrev pub of_info : Text → SvmInfo → CachedSvm
of_info svm_name info = record {
  svm_name = svm_name;
  vlan_id = info.vlan_id;
  ip = info.vip;
  allocation_id = none;
}

abbrev pub of_allocation : Text → NetworkAllocation → SvmInfo → CachedSvm
of_allocation svm_name a info = record {
  svm_name = svm_name;
  vlan_id = number (pos a.vlan_id);
  ip = info.vip;
  allocation_id = a.allocation_id;
}

-- What a call answers: the name, `none` for a call that ends without a `return`, or an exception.
abbrev pub Answer : Type 0
Answer = Result DriverError (Option Text)

abbrev pub max_retries : ℕ
max_retries = 3

-- f"{prefix}{project_id}"
abbrev pub svm_name_of : Text → Text → Text
svm_name_of svm_prefix project_id = svm_prefix ++ project_id

module _ {W : Type 0} (net : NetworkAllocator W) (api : SvmApi W) where
  -- `if allocation and allocation.allocation_id: deallocate(...)`
  unfoldable pub clean_up : Option NetworkAllocation → W → W
  clean_up none w = w
  clean_up (some a) w = elim a.allocation_id [
    | none ↦ w
    | some id ↦ if is_empty id then w else net.deallocate id w
  ]

  -- Another process has made the SVM: its record is cached.
  unfoldable pub adopt : Text → Text → Driver W → Answer × Driver W
  adopt project_id svm_name s =
      let (r, w) = api.get_svm svm_name s.world in
      elim r [
        | ok info ↦ (
          ok (some svm_name),
          cache_put project_id (of_info svm_name info) (record s { world = w }),
        )
        | err e ↦ (err (raised e), record s { world = w })
      ]

  -- One attempt: what it raises, with the allocation that the call holds then.
  unfoldable pub attempt_once :
      Text
      → Text
      → ℕ
      → Option NetworkAllocation
      → Driver W
      → Result (ApiError × Option NetworkAllocation) CachedSvm × W
  attempt_once project_id svm_name attempt held s =
      let (r, w1) = net.allocate svm_name attempt s.world in
      elim r [
        | err e ↦ (err (e, held), w1)
        | ok a ↦
            let (c, w2) = api.create_svm svm_name a w1 in
            elim c [
              | err e ↦ (err (e, some a), w2)
              | ok info ↦ (ok (of_allocation svm_name a info), w2)
            ]
      ]

  -- The attempts that are left, from `attempt` on, with the allocation that was made last.
  unfoldable pub attempts_from :
      Text → Text → ℕ → ℕ → Option NetworkAllocation → Driver W → Answer × Driver W
  unfolding attempt_once clean_up adopt
  attempts_from project_id svm_name attempt zero held s = (ok none, s)
  attempts_from project_id svm_name attempt (suc left) held s =
      let (r, w) = attempt_once project_id svm_name attempt held s in
      elim r [
        | ok entry ↦ (ok (some svm_name), cache_put project_id entry (record s { world = w }))
        | err (e, held') ↦
            let cleaned : Driver W = record s { world = clean_up held' w } in
            elim e [
              | svm_exists ↦ adopt project_id svm_name cleaned
              | network_conflict ↦ elim (nat_eqb left 0) [
                | true ↦ (err share_backend, cleaned)
                | false ↦ attempts_from project_id svm_name (attempt + 1) left held' cleaned
              ]
              | _ ↦ (err share_backend, cleaned)
            ]
      ]

  -- `_allocate_per_project_svm_impl` behind its look at the cache: the SVM that the backend has
  -- is cached, and one that it has not is made.
  unfoldable pub find_or_make : Text → Text → Driver W → Answer × Driver W
  find_or_make project_id svm_name s =
      let (r, w) = api.get_svm svm_name s.world in
      let found : Driver W = record s { world = w } in
      elim r [
        | ok info ↦ (ok (some svm_name), cache_put project_id (of_info svm_name info) found)
        | err e ↦ elim e [
          | svm_not_found ↦ attempts_from project_id svm_name 0 max_retries none found
          | failure ↦ (err (raised failure), found)
        ]
      ]

  -- `_allocate_per_project_svm` and `_allocate_per_project_svm_impl`
  unfoldable pub allocate_per_project_svm : Text → Text → Driver W → Answer × Driver W
  allocate_per_project_svm svm_prefix project_id s = elim (s.cache project_id) [
    | some entry ↦ (ok (some entry.svm_name), s)
    | none ↦ find_or_make project_id (svm_name_of svm_prefix project_id) s
  ]
