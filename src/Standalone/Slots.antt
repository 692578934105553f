-- ===== src/Standalone/Slots.antt =====
-- `_find_free_slot_in_pool`: the search of a pool from an offset on, around its end.
pub mod Search
use arca_storage.Base.{
  ℕ, zero, suc, ◌+◌, ◌-◌, ◌%◌, ◌≡◌, Bool, Option, none, some, List, [], ◌∷◌, contains, nat_order,
  ltb, if◌then◌else◌,
}
use arca_storage.Standalone.{Pool}
use arca_storage.Standalone.Used.{SvmInfo, get_used_ips_in_vlan}

-- The address at the `i`-th place of the search.
abbrev pub candidate : Pool → ℕ → ℕ → ℕ
candidate pool start_offset i = pool.first_host + (start_offset + i) % pool.num_hosts

-- The search from place `i` on, for the places that are left.
unfoldable pub search_from : Pool → List ℕ → ℕ → ℕ → ℕ → Option ℕ
search_from pool used start_offset i zero = none
search_from pool used start_offset i (suc left) =
    let rest = search_from pool used start_offset (i + 1) left in
    let ip_addr = candidate pool start_offset i in
    if contains ip_addr used then rest else some ip_addr

-- `randint low high` is the draw of the generator that is seeded for this call.
unfoldable pub start_offset : (ℕ → ℕ → ℕ) → ℕ → ℕ → ℕ
start_offset randint attempt num_hosts = if ltb 0 attempt then randint 0 (num_hosts - 1) else 0

-- The free address that is found; `none` stands for `PoolExhaustedException`.
unfoldable pub find_free_slot_in_pool : (ℕ → ℕ → ℕ) → Pool → ℕ → Option (List SvmInfo) → Option ℕ
find_free_slot_in_pool randint pool attempt svms =
    search_from pool (get_used_ips_in_vlan pool.vlan_id svms)
      (start_offset randint attempt pool.num_hosts) 0 pool.num_hosts
