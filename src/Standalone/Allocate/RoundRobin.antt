-- ===== src/Standalone/Allocate/RoundRobin.antt =====
-- What an allocation gives, when the pools are exhausted, and which pool is used.
use native.Mathlib.Nat.{mod-lt, mod-eq_of_lt, add-zero}
use arca_storage.Base.{
  ℕ, ◌+◌, ◌%◌, ◌≤◌, ◌≡◌, ◌∙◌, ap, sym, ◌↔◌, inl, inr, refl, true, false, Option, none, some, List,
  All, All-get_elem?, length, get_elem?, contains, nat_order, Option-cases, arith,
}
use arca_storage.Results.{ok, err}
use arca_storage.Standalone.{NetworkAllocation, Pool, pool_exhausted}
use arca_storage.Standalone.Pools.Valid.{IsValidPool}
use arca_storage.Standalone.Used.{SvmInfo, get_used_ips_in_vlan}
use arca_storage.Standalone.Slots.{find_free_slot_in_pool}
use arca_storage.Standalone.Slots.Search.{reaches_offset, find_free_slot-free, find_free_slot-none}
use arca_storage.Standalone.Allocate.{
  Outside, Allocator, slot_of, try_pools, allocation_of, allocate,
}
use arca_storage.Standalone.Allocate.Loop.{
  try_pools-IsSlot, try_pools-none, finish, allocate_lem, length_pos, try_pools_first,
  ok_needs_pool, slot_of-found, lt-length,
}

-- A successful allocation moves the counter on by one, and hands out the VLAN, the gateway and an
-- address of one of the configured pools; the address lies in that pool's range, and the backend's
-- answer for that pool does not show it in use in the VLAN.
pub allocate-ok :
    (outside : Outside) (s s' : Allocator) (retry : ℕ) (alloc : NetworkAllocation)
    → All IsValidPool s.pools
    → allocate outside s retry ≡ (ok alloc, s')
    → (s' ≡ record s { counter = s.counter + 1 })
      × ((pool : Pool) × (a k i : ℕ) × (get_elem? s.pools i ≡ some pool)
          × (alloc ≡ allocation_of pool a)
          × (pool.first_host ≤ a)
          × (a ≤ pool.last_host)
          × (contains a (get_used_ips_in_vlan pool.vlan_id (outside.svms k)) ≡ false))
allocate-ok outside s s' retry alloc valid h =
    let some_pool = ok_needs_pool outside s s' retry alloc h in
    let h' = sym (allocate_lem outside s retry some_pool) ∙ h in
    elim (Option-cases
      (try_pools outside retry s.pools (s.counter % length s.pools) 0 (length s.pools))) [
        | inl e ↦ cc (rw e at h')
        | inr ((pool, a), e) ↦
            let (k, (i, here), found) =
              try_pools-IsSlot outside retry s.pools _ 0 (length s.pools) pool a e in
            let r =
              find_free_slot-free (outside.randint k) pool retry (outside.svms k) a
                (All-get_elem? IsValidPool s.pools i valid here) found in
            let done : finish s (some (pool, a)) ≡ (ok alloc, s') = (rw e at h') in
            (ground arith, (pool, a, k, i, here, ground arith, r.0, r.1, r.4))
      ]

module _ (outside : Outside) (s : Allocator) (retry : ℕ) (svms : Option (List SvmInfo))
    (valid : All IsValidPool s.pools) (steady : (k : ℕ) → outside.svms k ≡ svms) where
  -- Every address of every pool is in use.
  abbrev AllFull : Type 0
  AllFull =
      (i : ℕ) (pool : Pool)
      → get_elem? s.pools i ≡ some pool
      → (a : ℕ) → pool.first_host ≤ a
      → a ≤ pool.last_host
      → contains a (get_used_ips_in_vlan pool.vlan_id svms) ≡ true

  abbrev loop : Option (Pool × ℕ)
  loop = try_pools outside retry s.pools (s.counter % length s.pools) 0 (length s.pools)

  passed_over :
      (k : ℕ) (pool : Pool)
      → slot_of outside retry k (some pool) ≡ none
      → find_free_slot_in_pool (outside.randint k) pool retry (outside.svms k) ≡ none
  passed_over k pool h =
      elim (Option-cases (find_free_slot_in_pool (outside.randint k) pool retry (outside.svms k))) [
        | inl e ↦ e
        | inr (a, e) ↦ cc (h, slot_of-found outside retry k pool a e)
      ]

  exhausted_full : loop ≡ none → AllFull
  exhausted_full h i pool here a low high =
      let start = s.counter % length s.pools in
      let (j, lt, e) = reaches_offset start (length s.pools) i (lt-length s.pools i here) in
      let skipped =
        try_pools-none outside retry s.pools start 0 (length s.pools) h j (omega arith)
          (omega arith) in
      let none_found = passed_over j pool (rw (e, here) at skipped) in
      let ok_pool = All-get_elem? IsValidPool s.pools i valid here in
      rw (← steady j) (
        (find_free_slot-none (outside.randint j) pool retry (outside.svms j) ok_pool).0 none_found a
          low high)

  full_exhausted : AllFull → loop ≡ none
  full_exhausted full = elim (Option-cases loop) [
    | inl e ↦ e
    | inr ((pool, a), e) ↦
        let (k, (i, here), found) =
          try_pools-IsSlot outside retry s.pools _ 0 (length s.pools) pool a e in
        let ok_pool = All-get_elem? IsValidPool s.pools i valid here in
        let r =
          find_free_slot-free (outside.randint k) pool retry (outside.svms k) a ok_pool found in
        cc (full i pool here a r.0 r.1, r.4, steady k)
  ]

finish-exhausted :
    (s : Allocator) (o : Option (Pool × ℕ)) → (finish s o).0 ≡ err pool_exhausted → o ≡ none
finish-exhausted s none h = refl
finish-exhausted s (some (pool, a)) h = cc

-- Where the backend gives every query of a call the same answer, the allocation fails for
-- exhaustion exactly where every address of every pool is in use in its VLAN.
pub allocate-exhausted :
    (outside : Outside) (s : Allocator) (retry : ℕ) (svms : Option (List SvmInfo))
    → All IsValidPool s.pools
    → 1 ≤ length s.pools
    → ((k : ℕ) → outside.svms k ≡ svms)
    → ((allocate outside s retry).0 ≡ err pool_exhausted) ↔ (
        (i : ℕ) (pool : Pool)
        → get_elem? s.pools i ≡ some pool
        → (a : ℕ) → pool.first_host ≤ a
        → a ≤ pool.last_host
        → contains a (get_used_ips_in_vlan pool.vlan_id svms) ≡ true)
allocate-exhausted outside s retry svms valid some_pool steady =
    let lem = allocate_lem outside s retry some_pool in
    (
      λ h. exhausted_full outside s retry svms valid steady (finish-exhausted s _ (rw lem at h)),
      λ full. rw (lem, full_exhausted outside s retry svms valid steady full) refl,
    )

-- The pool at the counter's place, modulo the number of pools, is used if it has a free address.
pub allocate-round_robin :
    (outside : Outside) (s : Allocator) (retry : ℕ) (pool : Pool) (a : ℕ)
    → get_elem? s.pools (s.counter % length s.pools) ≡ some pool
    → find_free_slot_in_pool (outside.randint 0) pool retry (outside.svms 0) ≡ some a
    → allocate outside s retry ≡ (ok (allocation_of pool a), record s { counter = s.counter + 1 })
allocate-round_robin outside s retry pool a here found =
    let start = s.counter % length s.pools in
    let some_pool = length_pos s.pools start here in
    let now : (start + 0) % length s.pools ≡ start =
      simp (add-zero, mod-eq_of_lt (mod-lt s.counter some_pool)) in
    let slot : slot_of outside retry 0 (get_elem? s.pools ((start + 0) % length s.pools))
        ≡ some (pool, a) =
      rw (now, here) (slot_of-found outside retry 0 pool a found) in
    allocate_lem outside s retry some_pool
    ∙ ap (finish s) (try_pools_first outside retry s.pools start 0 (length s.pools) some_pool slot)
