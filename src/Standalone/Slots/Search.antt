-- ===== src/Standalone/Slots/Search.antt =====
-- The search finds a free address of the pool exactly where there is one.
use native.Mathlib.Nat.{
  one-le-pow, div-mul-le_self, lt-div-mul-add, mod-lt, div-add-mod', mul-add-mod_self_right,
  mod-eq_of_lt,
}
use arca_storage.Base.{
  ℕ, zero, suc, ◌+◌, ◌-◌, ◌*◌, ◌/◌, ◌%◌, ◌≤◌, ◌<◌, ◌≡◌, ◌≢◌, ◌↔◌, ◌⊎◌, inl, inr, refl, true, false,
  Option, none, some, List, contains, nat_order, Bool-cases, Option-cases, arith,
}
use arca_storage.Ipv4.{block, network_of, broadcast_of}
use arca_storage.Standalone.{Pool}
use arca_storage.Standalone.Pools.Valid.{IsValidPool, network_between}
use arca_storage.Standalone.Used.{SvmInfo, get_used_ips_in_vlan}
use arca_storage.Standalone.Slots.{candidate, search_from, start_offset, find_free_slot_in_pool}

pub eq_or_lt : (i j : ℕ) → i ≤ j → (i ≡ j) ⊎ (i < j)
eq_or_lt i j h = grind arith

le_or_lt : (i j : ℕ) → (i ≤ j) ⊎ (j < i)
le_or_lt i j = grind arith

mod_of : (q n o x : ℕ) → o < n → x ≡ q * n + o → x % n ≡ o
mod_of q n o x h e = rw (e, mul-add-mod_self_right, mod-eq_of_lt h) refl

-- Every offset below `n` is reached from `s` in fewer than `n` steps, around the end.
pub reaches_offset : (s n o : ℕ) → o < n → (i : ℕ) × (i < n) × ((s + i) % n ≡ o)
reaches_offset s n o h = elim (le_or_lt (s % n) o) [
  | inl le ↦ (
    o - s % n,
    omega arith,
    mod_of (s / n) n o (s + (o - s % n)) h (omega (arith, div-add-mod' s n)),
  )
  | inr lt ↦ (
    o + n - s % n,
    omega arith,
    mod_of (s / n + 1) n o (s + (o + n - s % n)) h
        (omega (arith, div-add-mod' s n, mod-lt s {m = n} (omega arith))),
  )
]

module _ (pool : Pool) (used : List ℕ) (start : ℕ) where
  found_at :
      (i left a : ℕ)
      → search_from pool used start i left ≡ some a
      → (j : ℕ) × (a ≡ candidate pool start j) × (contains a used ≡ false)
  unfolding search_from
  found_at i zero a h = cc
  found_at i (suc left) a h = elim (Bool-cases (contains (candidate pool start i) used)) [
    | inl taken ↦ found_at (i + 1) left a (rw taken at h)
    | inr free ↦
        let e : candidate pool start i ≡ a = ground arith in (i, ground arith, rw (← e) free)
  ]

  all_taken :
      (i left : ℕ)
      → search_from pool used start i left ≡ none
      → (j : ℕ) → i ≤ j
      → j < i + left
      → contains (candidate pool start j) used ≡ true
  unfolding search_from
  all_taken i zero h j lo hi = absurd (omega arith)
  all_taken i (suc left) h j lo hi = elim (Bool-cases (contains (candidate pool start i) used)) [
    | inl taken ↦ elim (eq_or_lt i j lo) [
      | inl e ↦ rw (← e) taken
      | inr gt ↦ all_taken (i + 1) left (rw taken at h) j (omega arith) (omega arith)
    ]
    | inr free ↦ cc (rw free at h)
  ]

-- Where a candidate lies, and that it is free, for a search that found one.
found_in_range :
    (pool : Pool) (used : List ℕ) (start a : ℕ)
    → IsValidPool pool
    → search_from pool used start 0 pool.num_hosts ≡ some a
    → (pool.first_host ≤ a) × (a ≤ pool.last_host) × (contains a used ≡ false)
found_in_range pool used start a valid h =
    let (j, e, free) = found_at pool used start 0 pool.num_hosts a h in
    let some_host : 0 < pool.num_hosts = omega (arith, valid.counted, valid.ordered) in
    let room = mod-lt (start + j) some_host in (omega arith, omega (arith, valid.counted), free)

block_pos : (p : ℕ) → 0 < block p
block_pos p = one-le-pow (32 - p) 2 (omega arith)

network-le : (a p : ℕ) → network_of a p ≤ a
unfolding network_of
network-le a p = div-mul-le_self a (block p)

le-broadcast : (a p : ℕ) → a ≤ broadcast_of (network_of a p) p
unfolding network_of broadcast_of
le-broadcast a p = omega (arith, lt-div-mul-add {a = a} (block_pos p))

off_network :
    (pool : Pool) (a : ℕ)
    → IsValidPool pool
    → pool.prefixlen < 31
    → pool.first_host ≤ a
    → a ≢ pool.network
off_network pool a valid short low e =
    valid.first_edge short
      (omega (arith, network-le pool.first_host pool.prefixlen, valid.first_inside))

off_broadcast :
    (pool : Pool) (a : ℕ)
    → IsValidPool pool
    → pool.prefixlen < 31
    → a ≤ pool.last_host
    → a ≢ broadcast_of pool.network pool.prefixlen
off_broadcast pool a valid short high e =
    valid.last_edge short
      (omega (arith, rw valid.last_inside at (le-broadcast pool.last_host pool.prefixlen)))

off_gateway :
    (pool : Pool) (a : ℕ) (valid : IsValidPool pool)
    → pool.first_host ≤ a
    → a ≤ pool.last_host
    → a ≢ valid.gateway_ip
off_gateway pool a valid low high e = grind (arith, valid.gateway_outside)

-- An address that is found in a valid pool lies between the pool's first and last hosts and in its
-- network, is not the pool's gateway and not among the addresses in use, and where the prefix is
-- shorter than /31 it is neither the network address nor the broadcast address.
pub find_free_slot-free :
    (randint : ℕ → ℕ → ℕ) (pool : Pool) (attempt : ℕ) (svms : Option (List SvmInfo)) (a : ℕ)
    (valid : IsValidPool pool)
    → find_free_slot_in_pool randint pool attempt svms ≡ some a
    → (pool.first_host ≤ a)
      × (a ≤ pool.last_host)
      × (network_of a pool.prefixlen ≡ pool.network)
      × (a ≢ valid.gateway_ip)
      × (contains a (get_used_ips_in_vlan pool.vlan_id svms) ≡ false)
      × ((31 ≤ pool.prefixlen)
          ⊎ ((a ≢ pool.network) × (a ≢ broadcast_of pool.network pool.prefixlen)))
unfolding find_free_slot_in_pool
find_free_slot-free randint pool attempt svms a valid h =
    let used = get_used_ips_in_vlan pool.vlan_id svms in
    let start = start_offset randint attempt pool.num_hosts in
    let (low, high, free) = found_in_range pool used start a valid h in
    (
      low,
      high,
      network_between pool.first_host a pool.last_host pool.prefixlen low high valid.first_inside
          valid.last_inside,
      off_gateway pool a valid low high,
      free,
      elim (le_or_lt 31 pool.prefixlen) [
        | inl long ↦ inl long
        | inr short ↦
            inr (off_network pool a valid short low, off_broadcast pool a valid short high)
      ],
    )

none_covers :
    (pool : Pool) (used : List ℕ) (start : ℕ)
    → IsValidPool pool
    → search_from pool used start 0 pool.num_hosts ≡ none
    → (a : ℕ) → pool.first_host ≤ a
    → a ≤ pool.last_host
    → contains a used ≡ true
none_covers pool used start valid h a low high =
    let o = a - pool.first_host in
    let (i, lt, e) = reaches_offset start pool.num_hosts o (omega (arith, valid.counted)) in
    let same : candidate pool start i ≡ a = omega arith in
    rw (← same) (all_taken pool used start 0 pool.num_hosts h i (omega arith) (omega arith))

covers_none :
    (pool : Pool) (used : List ℕ) (start : ℕ)
    → IsValidPool pool
    → ((a : ℕ) → pool.first_host ≤ a → a ≤ pool.last_host → contains a used ≡ true)
    → search_from pool used start 0 pool.num_hosts ≡ none
covers_none pool used start valid full =
    elim (Option-cases (search_from pool used start 0 pool.num_hosts)) [
      | inl e ↦ e
      | inr (a, e) ↦
          let (low, high, free) = found_in_range pool used start a valid e in
          cc (free, full a low high)
    ]

-- In a valid pool the search fails exactly where every address from the first host to the last is
-- in use, whatever the attempt and the offset that was drawn.
pub find_free_slot-none :
    (randint : ℕ → ℕ → ℕ) (pool : Pool) (attempt : ℕ) (svms : Option (List SvmInfo))
    → IsValidPool pool
    → (find_free_slot_in_pool randint pool attempt svms ≡ none) ↔ (
        (a : ℕ)
        → pool.first_host ≤ a
        → a ≤ pool.last_host
        → contains a (get_used_ips_in_vlan pool.vlan_id svms) ≡ true)
unfolding find_free_slot_in_pool
find_free_slot-none randint pool attempt svms valid =
    let used = get_used_ips_in_vlan pool.vlan_id svms in
    let start = start_offset randint attempt pool.num_hosts in
    (none_covers pool used start valid, covers_none pool used start valid)
