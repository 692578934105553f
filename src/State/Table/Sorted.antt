-- ===== src/State/Table/Sorted.antt =====
-- A table has strictly increasing keys, and such a table is determined by what `find` returns.
use arca_storage.Base.{
  ◌≡◌, ◌≢◌, inl, inr, refl, true, false, none, List, [], ◌∷◌, All, lex_total, lex_trans,
  lex_antisym, nat_order, list_order, Bool-cases, arith,
}
use arca_storage.State.Table.{Key, key_le, insert, sorted, find}
use arca_storage.State.Table.Find.{key_iff, key_le_refl}

-- `j < k`
abbrev pub Below : Key → Key → Type 0
Below j k = key_le k j ≡ false

Below-trans : (j k l : Key) → Below j k → Below k l → Below j l
Below-trans j k l h h' = elim (Bool-cases (key_le l j)) [
  | inr e ↦ e
  | inl e ↦ cc (lex_trans l j k e (lex_total k j h), h')
]

pub Below-ne : (j k : Key) → Below j k → j ≢ k
Below-ne j k h e = cc (h, e, key_le_refl k)

not-Below : (j k : Key) → key_le j k ≡ true → j ≢ k → Below j k
not-Below j k h ne = elim (Bool-cases (key_le k j)) [
  | inr e ↦ e
  | inl e ↦ absurd (ne (lex_antisym j k h e))
]

module _ {ℓ} {R : Type ℓ} (key : R → Key) where
  -- Each key is below all that follow it.
  abbrev pub IsTable : List R → Type 0
  IsTable [] = Unit
  IsTable (r ∷ rs) = All (λ s. Below (key r) (key s)) rs × IsTable rs

  -- No two records have one key.
  abbrev pub IsDistinct : List R → Type 0
  IsDistinct [] = Unit
  IsDistinct (r ∷ rs) = All (λ s. key r ≢ key s) rs × IsDistinct rs

  insert-All : (P : R → Type 0) (r : R) (rs : List R) → P r → All P rs → All P (insert key r rs)
  unfolding insert
  insert-All P r [] p h = (p, tt)
  insert-All P r (s ∷ rs) p h = ground (arith, insert-All P r rs p h.1)

  sorted-All : (P : R → Type 0) (rs : List R) → All P rs → All P (sorted key rs)
  unfolding sorted
  sorted-All P [] h = tt
  sorted-All P (r ∷ rs) h = insert-All P r (sorted key rs) h.0 (sorted-All P rs h.1)

  pub Below-All :
      (j k : Key) (rs : List R)
      → Below j k
      → All (λ s. Below k (key s)) rs
      → All (λ s. Below j (key s)) rs
  Below-All j k [] h a = tt
  Below-All j k (s ∷ rs) h a = (Below-trans j k (key s) h a.0, Below-All j k rs h a.1)

  insert-IsTable :
      (r : R) (rs : List R) → IsTable rs → All (λ s. key r ≢ key s) rs → IsTable (insert key r rs)
  unfolding insert
  insert-IsTable r [] t d = (tt, tt)
  insert-IsTable r (s ∷ rs) t d = elim (Bool-cases (key_le (key r) (key s))) [
    | inl e ↦
        let b = not-Below (key r) (key s) e d.0 in rw e ((b, Below-All (key r) (key s) rs b t.0), t)
    | inr e ↦ rw e (insert-All (λ x. Below (key s) (key x)) r rs e t.0, insert-IsTable r rs t.1 d.1)
  ]

  pub sorted-IsTable : (rs : List R) → IsDistinct rs → IsTable (sorted key rs)
  unfolding sorted
  sorted-IsTable [] d = tt
  sorted-IsTable (r ∷ rs) d =
      insert-IsTable r (sorted key rs) (sorted-IsTable rs d.1)
        (sorted-All (λ s. key r ≢ key s) rs d.0)

  ne-All : (j : Key) (rs : List R) → All (λ s. Below j (key s)) rs → All (λ s. j ≢ key s) rs
  ne-All j [] h = tt
  ne-All j (s ∷ rs) h = (Below-ne j (key s) h.0, ne-All j rs h.1)

  pub IsTable-IsDistinct : (rs : List R) → IsTable rs → IsDistinct rs
  IsTable-IsDistinct [] t = tt
  IsTable-IsDistinct (r ∷ rs) t = (ne-All (key r) rs t.0, IsTable-IsDistinct rs t.1)

  pub find-Below : (k : Key) (rs : List R) → All (λ s. Below k (key s)) rs → find key k rs ≡ none
  unfolding find
  find-Below k [] h = refl
  find-Below k (s ∷ rs) h =
      ground (arith, key_iff (key s) k, Below-ne k (key s) h.0, find-Below k rs h.1)
