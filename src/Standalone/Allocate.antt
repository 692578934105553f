-- ===== src/Standalone/Allocate.antt =====
-- `_allocate_from_multi_pool`, `allocate` and `deallocate`. The driver calls them under its lock.
pub mod Loop
pub mod RoundRobin
pub mod Reuse
use arca_storage.Base.{
  ℕ, zero, suc, ◌+◌, ◌%◌, ◌≡◌, Option, none, some, List, [], ◌∷◌, ◌++◌, Text, length, get_elem?,
  decimal, nat_eqb, if◌then◌else◌,
}
use arca_storage.Ipv4.{address_text}
use arca_storage.Results.{Result, ok, err}
use arca_storage.Standalone.{
  NetworkAllocation, Pool, NetworkError, pool_exhausted, network_conflict,
}
use arca_storage.Standalone.Used.{SvmInfo}
use arca_storage.Standalone.Slots.{find_free_slot_in_pool}

-- The world outside, at the `k`-th pool that a call tries: the draw of the generator seeded there,
-- and the backend's answer to `list_svms`, where `none` stands for an exception.
pub record Outside : Type 0 where
  pub randint : ℕ → ℕ → ℕ → ℕ
  pub svms : ℕ → Option (List SvmInfo)

-- The allocator's state: the parsed pools and `_pool_allocation_counter`.
pub record Allocator : Type 0 where
  pub pools : List Pool
  pub counter : ℕ

-- f"{ip_addr}/{ip_network.prefixlen}"
abbrev pub cidr_text : ℕ → ℕ → Text
cidr_text a prefixlen = address_text a ++ b'/' ∷ decimal prefixlen

unfoldable pub slot_of : Outside → ℕ → ℕ → Option Pool → Option (Pool × ℕ)
slot_of outside retry k none = none
slot_of outside retry k (some pool) =
    elim (find_free_slot_in_pool (outside.randint k) pool retry (outside.svms k)) [
      | none ↦ none
      | some a ↦ some (pool, a)
    ]

-- The loop over the pools from the start index on, around the end of the list. A pool that is
-- exhausted is passed over.
unfoldable pub try_pools : Outside → ℕ → List Pool → ℕ → ℕ → ℕ → Option (Pool × ℕ)
try_pools outside retry pools start k zero = none
try_pools outside retry pools start k (suc left) =
    let rest = try_pools outside retry pools start (k + 1) left in
    elim (slot_of outside retry k (get_elem? pools ((start + k) % length pools))) [
      | some slot ↦ some slot
      | none ↦ rest
    ]

abbrev pub allocation_of : Pool → ℕ → NetworkAllocation
allocation_of pool a = record {
  vlan_id = pool.vlan_id;
  ip_cidr = cidr_text a pool.prefixlen;
  gateway = pool.gateway;
  allocation_id = none;
}

-- With no pool the remainder by zero raises, and `allocate` turns that into a conflict.
unfoldable pub allocate :
    Outside → Allocator → ℕ → Result NetworkError NetworkAllocation × Allocator
allocate outside s retry_attempt =
    let n = length s.pools in
    if nat_eqb n 0
    then (err network_conflict, s)
    else elim (try_pools outside retry_attempt s.pools (s.counter % n) 0 n) [
      | some (pool, a) ↦ (ok (allocation_of pool a), record s { counter = s.counter + 1 })
      | none ↦ (err pool_exhausted, s)
    ]

-- Addresses are free again when their SVM is deleted.
unfoldable pub deallocate : Text → Allocator → Allocator
deallocate allocation_id s = s
