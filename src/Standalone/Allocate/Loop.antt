-- ===== src/Standalone/Allocate/Loop.antt =====
-- The loop of an allocation over the pools: what it finds, and when it finds nothing.
use arca_storage.Base.{
  ℕ, zero, suc, ◌+◌, ◌%◌, ◌≤◌, ◌<◌, ◌≡◌, ◌∙◌, ap, sym, inl, inr, refl, Option, none, some, List, [],
  ◌∷◌, length, get_elem?, nat_order, Option-cases, arith,
}
use arca_storage.Results.{Result, ok, err}
use arca_storage.Standalone.{
  NetworkAllocation, Pool, NetworkError, pool_exhausted, network_conflict,
}
use arca_storage.Standalone.Slots.{find_free_slot_in_pool}
use arca_storage.Standalone.Slots.Search.{eq_or_lt}
use arca_storage.Standalone.Allocate.{
  Outside, Allocator, slot_of, try_pools, allocation_of, allocate,
}

-- What a slot that was found is: at some query, the free address of a pool of the list.
abbrev pub IsSlot : Outside → ℕ → List Pool → Pool → ℕ → Type 0
IsSlot outside retry pools pool a =
    (k : ℕ) × ((i : ℕ) × (get_elem? pools i ≡ some pool))
    × (find_free_slot_in_pool (outside.randint k) pool retry (outside.svms k) ≡ some a)

module _ (outside : Outside) (retry : ℕ) (pools : List Pool) where
  IsSlot-at :
      (k i : ℕ) (q pool : Pool) (a : ℕ)
      → get_elem? pools i ≡ some q
      → slot_of outside retry k (some q) ≡ some (pool, a)
      → IsSlot outside retry pools pool a
  unfolding slot_of
  IsSlot-at k i q pool a e h =
      let same : q ≡ pool = ground arith in (k, (i, e ∙ ap some same), ground arith)

  slot_of-some :
      (k i : ℕ) (pool : Pool) (a : ℕ)
      → slot_of outside retry k (get_elem? pools i) ≡ some (pool, a)
      → IsSlot outside retry pools pool a
  unfolding slot_of
  slot_of-some k i pool a h = elim (Option-cases (get_elem? pools i)) [
    | inl e ↦ cc (rw e at h)
    | inr (q, e) ↦ IsSlot-at k i q pool a e (rw e at h)
  ]

  pub try_pools-IsSlot :
      (start k left : ℕ) (pool : Pool) (a : ℕ)
      → try_pools outside retry pools start k left ≡ some (pool, a)
      → IsSlot outside retry pools pool a
  unfolding try_pools
  try_pools-IsSlot start k zero pool a h = cc
  try_pools-IsSlot start k (suc left) pool a h =
      elim (Option-cases (slot_of outside retry k (get_elem? pools ((start + k) % length pools)))) [
        | inl e ↦ try_pools-IsSlot start (k + 1) left pool a (rw (e, try_pools) at h)
        | inr ((q, b), e) ↦
            slot_of-some k ((start + k) % length pools) pool a (e ∙ (rw (e, try_pools) at h))
      ]

  pub try_pools-none :
      (start k left : ℕ)
      → try_pools outside retry pools start k left ≡ none
      → (j : ℕ) → k ≤ j
      → j < k + left
      → slot_of outside retry j (get_elem? pools ((start + j) % length pools)) ≡ none
  unfolding try_pools
  try_pools-none start k zero h j lo hi = absurd (omega arith)
  try_pools-none start k (suc left) h j lo hi =
      elim (Option-cases (slot_of outside retry k (get_elem? pools ((start + k) % length pools)))) [
        | inl e ↦ elim (eq_or_lt k j lo) [
          | inl same ↦ rw (← same) e
          | inr gt ↦
              try_pools-none start (k + 1) left (rw (e, try_pools) at h) j (omega arith)
                (omega arith)
        ]
        | inr (slot, e) ↦ cc (rw (e, try_pools) at h)
      ]

-- The result of `allocate` for each result of its loop.
abbrev pub finish :
    Allocator → Option (Pool × ℕ) → Result NetworkError NetworkAllocation × Allocator
finish s none = (err pool_exhausted, s)
finish s (some (pool, a)) = (ok (allocation_of pool a), record s { counter = s.counter + 1 })

pub allocate_lem :
    (outside : Outside) (s : Allocator) (retry : ℕ)
    → 1 ≤ length s.pools
    → allocate outside s retry
      ≡ finish s (try_pools outside retry s.pools (s.counter % length s.pools) 0 (length s.pools))
unfolding allocate
allocate_lem outside s retry h = ground arith

no_pools_conflict :
    (outside : Outside) (s : Allocator) (retry : ℕ)
    → length s.pools ≡ 0
    → allocate outside s retry ≡ (err network_conflict, s)
unfolding allocate
no_pools_conflict outside s retry h = ground arith

pub length_pos {ℓ} :
    {A : Type ℓ} (xs : List A) (i : ℕ) {x : A} → get_elem? xs i ≡ some x → 1 ≤ length xs
length_pos [] i h = cc
length_pos (x ∷ xs) i h = omega arith

pub try_pools_first :
    (outside : Outside) (retry : ℕ) (pools : List Pool) (start k left : ℕ) {slot : Pool × ℕ}
    → 1 ≤ left
    → slot_of outside retry k (get_elem? pools ((start + k) % length pools)) ≡ some slot
    → try_pools outside retry pools start k left ≡ some slot
unfolding try_pools
try_pools_first outside retry pools start k zero h e = absurd (omega arith)
try_pools_first outside retry pools start k (suc left) h e = rw (e, try_pools) refl

pub ok_needs_pool :
    (outside : Outside) (s s' : Allocator) (retry : ℕ) (alloc : NetworkAllocation)
    → allocate outside s retry ≡ (ok alloc, s')
    → 1 ≤ length s.pools
ok_needs_pool outside s s' retry alloc h = elim (eq_or_lt 0 (length s.pools) (omega arith)) [
  | inl e ↦ cc (no_pools_conflict outside s retry (sym e))
  | inr p ↦ p
]

pub slot_of-found :
    (outside : Outside) (retry k : ℕ) (pool : Pool) (a : ℕ)
    → find_free_slot_in_pool (outside.randint k) pool retry (outside.svms k) ≡ some a
    → slot_of outside retry k (some pool) ≡ some (pool, a)
unfolding slot_of
slot_of-found outside retry k pool a found = rw (found, slot_of) refl

pub lt-length {ℓ} :
    {A : Type ℓ} (xs : List A) (i : ℕ) {x : A} → get_elem? xs i ≡ some x → i < length xs
lt-length [] i h = cc
lt-length (x ∷ xs) zero h = omega arith
lt-length (x ∷ xs) (suc i) h = omega (arith, lt-length xs i h)
