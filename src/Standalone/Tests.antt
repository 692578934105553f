-- ===== src/Standalone/Tests.antt =====
-- The allocator at small pools.
use mathlib.Core.Option
use arca_storage.Base.{
  ℕ, ◌%◌, ◌≤◌, ◌≡◌, ◌≢◌, ◌↔◌, ◌⊎◌, inl, refl, true, false, none, some, List, [], ◌∷◌, All, Text,
  codes, length, contains, get_elem?, nat_order, split, split_once, decimal, digits_value,
  parse_int, pos, arith,
}
use arca_storage.Ipv4.{
  parse_octet, of_octets, parse_address, address_text, network_of, broadcast_of, in_network,
  parse_prefix, parse_interface,
}
use arca_storage.Results.{ok, err}
use arca_storage.Standalone.{Pool, pool_exhausted, invalid_pool, gateway_in_range}
use arca_storage.Standalone.Pools.{
  infer_pool_gateway, check_edges, check_pool, parse_ranges, parse_pool, parse_ip_vlan_pools,
  validate_config,
}
use arca_storage.Standalone.Pools.Valid.{IsValidPool, parse_pool-IsValid, validate_config-IsValid}
use arca_storage.Standalone.Used.{
  SvmInfo, number, vip_address, held_address, used_among, get_used_ips_in_vlan,
}
use arca_storage.Standalone.Slots.{search_from, start_offset, find_free_slot_in_pool}
use arca_storage.Standalone.Slots.Search.{find_free_slot-free, find_free_slot-none}
use arca_storage.Standalone.Allocate.{
  Outside, Allocator, slot_of, try_pools, allocation_of, allocate,
}
use arca_storage.Standalone.Allocate.RoundRobin.{allocate-ok, allocate-exhausted}
use arca_storage.Standalone.Allocate.Reuse.{find_free_slot-no_reuse}

abbrev pool_text : Text
pool_text = codes "192.168.100.0/24| 192.168.100.10-192.168.100.12 :100"

abbrev small_pool : Pool
small_pool = record {
  network = 3232261120;
  prefixlen = 24;
  vlan_id = 100;
  gateway = codes "192.168.100.1";
  num_hosts = 3;
  first_host = 3232261130;
  last_host = 3232261132;
}

parse_small : parse_pool pool_text ≡ ok small_pool
unfolding parse_pool parse_ranges check_pool check_edges infer_pool_gateway split parse_int
    split_once parse_interface parse_address of_octets parse_octet Option.bind digits_value
    parse_prefix in_network address_text decimal broadcast_of
parse_small = refl

-- A range that holds the gateway is refused.
parse_gateway :
    validate_config (codes "10.0.0.0/24|10.0.0.1-10.0.0.9:7" ∷ [])
    ≡ err (invalid_pool 0 gateway_in_range)
unfolding validate_config parse_ip_vlan_pools parse_pool parse_ranges check_pool check_edges
    infer_pool_gateway split parse_int split_once parse_interface parse_address of_octets
    parse_octet Option.bind digits_value parse_prefix in_network address_text decimal broadcast_of
parse_gateway = refl

parse_all : validate_config (pool_text ∷ []) ≡ ok (small_pool ∷ [])
unfolding validate_config parse_ip_vlan_pools parse_pool parse_ranges check_pool check_edges
    infer_pool_gateway split parse_int split_once parse_interface parse_address of_octets
    parse_octet Option.bind digits_value parse_prefix in_network address_text decimal broadcast_of
parse_all = refl

abbrev small_valid : IsValidPool small_pool
small_valid = parse_pool-IsValid pool_text small_pool parse_small

-- An SVM that holds the first address of the pool.
abbrev small_svms : List SvmInfo
small_svms =
    record { vlan_id = number (pos 100); vip = some (codes "192.168.100.10"); ip_cidr = none } ∷ []

abbrev first_draw : ℕ → ℕ → ℕ
first_draw low high = low

abbrev small_outside : Outside
small_outside = record { randint = λ k. first_draw; svms = λ k. some small_svms }

abbrev allocator_at : ℕ → Allocator
allocator_at n = record { pools = small_pool ∷ []; counter = n }

small_used : get_used_ips_in_vlan 100 (some small_svms) ≡ 3232261130 ∷ []
unfolding get_used_ips_in_vlan used_among held_address vip_address parse_address of_octets
    parse_octet Option.bind digits_value split
small_used = refl

small_found : find_free_slot_in_pool first_draw small_pool 0 (some small_svms) ≡ some 3232261131
unfolding find_free_slot_in_pool search_from start_offset get_used_ips_in_vlan used_among
    held_address vip_address parse_address of_octets parse_octet Option.bind digits_value split
small_found = refl

small_allocated :
    allocate small_outside (allocator_at 4) 0
    ≡ (ok (allocation_of small_pool 3232261131), allocator_at 5)
unfolding allocate try_pools slot_of find_free_slot_in_pool search_from start_offset
    get_used_ips_in_vlan used_among held_address vip_address parse_address of_octets parse_octet
    Option.bind digits_value split
small_allocated = refl

small_held :
    held_address
      (record { vlan_id = number (pos 100); vip = some (codes "192.168.100.10"); ip_cidr = none })
    ≡ some 3232261130
unfolding held_address vip_address parse_address of_octets parse_octet Option.bind digits_value
    split
small_held = refl

find_free_slot-free_example :
    (small_pool.first_host ≤ 3232261131)
    × (3232261131 ≤ small_pool.last_host)
    × (network_of 3232261131 24 ≡ 3232261120)
    × (◌≢◌ {A = ℕ} 3232261131 small_valid.gateway_ip)
    × (contains 3232261131 (get_used_ips_in_vlan 100 (some small_svms)) ≡ false)
    × ((31 ≤ 24)
        ⊎ ((◌≢◌ {A = ℕ} 3232261131 3232261120) × (3232261131 ≢ broadcast_of 3232261120 24)))
find_free_slot-free_example =
    find_free_slot-free first_draw small_pool 0 (some small_svms) 3232261131 small_valid small_found

find_free_slot-none_example :
    (find_free_slot_in_pool first_draw small_pool 1 (some small_svms) ≡ none) ↔ (
      (a : ℕ)
      → 3232261130 ≤ a
      → a ≤ 3232261132
      → contains a (get_used_ips_in_vlan 100 (some small_svms)) ≡ true)
find_free_slot-none_example =
    find_free_slot-none first_draw small_pool 1 (some small_svms) small_valid

allocate-ok_example :
    (allocator_at 5 ≡ allocator_at 5)
    × ((pool : Pool) × (a k i : ℕ) × (get_elem? (small_pool ∷ []) i ≡ some pool)
        × (allocation_of small_pool 3232261131 ≡ allocation_of pool a)
        × (pool.first_host ≤ a)
        × (a ≤ pool.last_host)
        × (contains a (get_used_ips_in_vlan pool.vlan_id (some small_svms)) ≡ false))
allocate-ok_example =
    allocate-ok small_outside (allocator_at 4) (allocator_at 5) 0
      (allocation_of small_pool 3232261131) (small_valid, tt) small_allocated

one_pool : 1 ≤ length (small_pool ∷ [])
one_pool = omega arith

allocate-exhausted_example :
    ((allocate small_outside (allocator_at 4) 2).0 ≡ err pool_exhausted) ↔ (
      (i : ℕ) (pool : Pool)
      → get_elem? (small_pool ∷ []) i ≡ some pool
      → (a : ℕ) → pool.first_host ≤ a
      → a ≤ pool.last_host
      → contains a (get_used_ips_in_vlan pool.vlan_id (some small_svms)) ≡ true)
allocate-exhausted_example =
    allocate-exhausted small_outside (allocator_at 4) 2 (some small_svms) (small_valid, tt) one_pool
      (λ k. refl)

find_free_slot-no_reuse_example : ◌≢◌ {A = ℕ} 3232261131 3232261130
find_free_slot-no_reuse_example =
    find_free_slot-no_reuse first_draw small_pool 0 small_svms 3232261130 3232261131 small_valid
      (inl (refl, small_held)) small_found

validate_config-IsValid_example : All IsValidPool (small_pool ∷ []) × (1 ≤ length (small_pool ∷ []))
validate_config-IsValid_example =
    validate_config-IsValid (pool_text ∷ []) (small_pool ∷ []) parse_all

pool_at_counter : get_elem? (small_pool ∷ []) (4 % length (small_pool ∷ [])) ≡ some small_pool
pool_at_counter = refl
