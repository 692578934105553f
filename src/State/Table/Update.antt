-- ===== src/State/Table/Update.antt =====
-- The updates keep a table, and a table is determined by what `find` returns.
use arca_storage.Base.{
  ◌≡◌, ◌≢◌, ◌↔◌, inl, inr, refl, sym, ◌∙◌, Bool, true, not, none, some, List, [], ◌∷◌, ◌++◌, All,
  All-filter, All-append, lex_antisym, ap₂, filter, nat_order, list_order, Bool-cases, arith,
}
use arca_storage.State.Table.{Key, key_eqb, key_le, find, put}
use arca_storage.State.Table.Find.{key_iff, find-put}
use arca_storage.State.Table.Sorted.{
  Below, IsTable, IsDistinct, sorted-IsTable, IsTable-IsDistinct, find-Below, Below-All,
}

module _ {ℓ} {R : Type ℓ} (key : R → Key) where
  pub filter-IsTable : (p : R → Bool) (rs : List R) → IsTable key rs → IsTable key (filter p rs)
  filter-IsTable p [] t = tt
  filter-IsTable p (r ∷ rs) t =
      ground (arith, All-filter (λ s. Below (key r) (key s)) p rs t.0, filter-IsTable p rs t.1)

  snoc-IsDistinct :
      (rs : List R) (r : R)
      → IsDistinct key rs
      → All (λ s. key s ≢ key r) rs
      → IsDistinct key (rs ++ r ∷ [])
  snoc-IsDistinct [] r d a = (tt, tt)
  snoc-IsDistinct (s ∷ rs) r d a =
      (All-append (λ x. key s ≢ key x) rs (r ∷ []) d.0 (a.0, tt), snoc-IsDistinct rs r d.1 a.1)

  find_nil : (k : Key) → find key k [] ≡ none
  unfolding find
  find_nil k = refl

  find_head : (r : R) (rs : List R) → find key (key r) (r ∷ rs) ≡ some r
  unfolding find
  find_head r rs = ground (arith, key_iff (key r) (key r))

  find_tail : (k : Key) (r : R) (rs : List R) → key r ≢ k → find key k (r ∷ rs) ≡ find key k rs
  unfolding find
  find_tail k r rs h = ground (arith, key_iff (key r) k)

  Below-none :
      (r s : R) (ss : List R)
      → Below (key r) (key s)
      → IsTable key (s ∷ ss)
      → find key (key r) (s ∷ ss) ≡ none
  Below-none r s ss h u =
      find-Below key (key r) (s ∷ ss) (h, Below-All key (key r) (key s) ss h u.0)

  heads_meet :
      (r s : R) (rs ss : List R)
      → IsTable key (s ∷ ss)
      → ((k : Key) → find key k (r ∷ rs) ≡ find key k (s ∷ ss))
      → Below (key r) (key s)
      → ⊥
  heads_meet r s rs ss u h b = cc (h (key r), find_head r rs, Below-none r s ss b u)

  same_head :
      (r s : R) (rs ss : List R)
      → key r ≡ key s
      → ((k : Key) → find key k (r ∷ rs) ≡ find key k (s ∷ ss))
      → r ≡ s
  same_head r s rs ss e h =
      let at_s = find_head s ss in cc (h (key r), find_head r rs, rw (← e) at at_s)

  same_tail :
      (r : R) (rs ss : List R)
      → IsTable key (r ∷ rs)
      → IsTable key (r ∷ ss)
      → ((k : Key) → find key k (r ∷ rs) ≡ find key k (r ∷ ss))
      → (k : Key) → find key k rs ≡ find key k ss
  same_tail r rs ss t u h k = elim (Bool-cases (key_eqb (key r) k)) [
    | inl e ↦
        let same = (key_iff (key r) k).0 e in
        rw (← same) (find-Below key (key r) rs t.0 ∙ sym (find-Below key (key r) ss u.0))
    | inr e ↦
        let ne : key r ≢ k = λ p. cc ((key_iff (key r) k).1 p, e) in
        sym (find_tail k r rs ne) ∙ h k ∙ find_tail k r ss ne
  ]

  -- Two tables with the same records under every key are one list.
  pub table_ext :
      (rs ss : List R)
      → IsTable key rs
      → IsTable key ss
      → ((k : Key) → find key k rs ≡ find key k ss)
      → rs ≡ ss
  table_ext [] [] t u h = refl
  table_ext [] (s ∷ ss) t u h = cc (h (key s), find_head s ss, find_nil (key s))
  table_ext (r ∷ rs) [] t u h = cc (h (key r), find_head r rs, find_nil (key r))
  table_ext (r ∷ rs) (s ∷ ss) t u h = elim (Bool-cases (key_le (key r) (key s))) [
    | inr gt ↦ absurd (heads_meet s r ss rs t (λ k. sym (h k)) gt)
    | inl le ↦ elim (Bool-cases (key_le (key s) (key r))) [
      | inr lt ↦ absurd (heads_meet r s rs ss u h lt)
      | inl ge ↦
          let e = same_head r s rs ss (lex_antisym (key r) (key s) le ge) h in
          ap₂ ◌∷◌ e (table_ext rs ss t.1 u.1 (same_tail r rs ss t (rw (← e) at u) (rw (← e) at h)))
    ]
  ]

module _ {ℓ} {R : Type ℓ} (key : R → Key) (same : R → R → Bool)
    (same_iff : (i r : R) → (same i r ≡ true) ↔ (key i ≡ key r)) where
  others-ne :
      (r : R) (items : List R) → All (λ s. key s ≢ key r) (filter (λ i. not (same i r)) items)
  others-ne r [] = tt
  others-ne r (i ∷ items) = ground (arith, others-ne r items, same_iff i r)

  pub put-IsTable :
      (r : R) (items : List R) → IsTable key items → IsTable key (put key same r items)
  unfolding put
  put-IsTable r items t =
      let kept = filter-IsTable key (λ i. not (same i r)) items t in
      sorted-IsTable key (filter (λ i. not (same i r)) items ++ r ∷ []) (
        snoc-IsDistinct key (filter (λ i. not (same i r)) items) r (IsTable-IsDistinct key _ kept)
          (others-ne r items))

  -- Updates under different keys may be made in either order.
  pub put_comm :
      (r s : R) (items : List R)
      → IsTable key items
      → key r ≢ key s
      → put key same r (put key same s items) ≡ put key same s (put key same r items)
  put_comm r s items t ne =
      table_ext key _ _ (put-IsTable r _ (put-IsTable s items t))
        (put-IsTable s _ (put-IsTable r items t))
        (λ k.
          rw
            (
              find-put key same same_iff k r (put key same s items),
              find-put key same same_iff k s items,
              find-put key same same_iff k s (put key same r items),
              find-put key same same_iff k r items,
            )
            (ground (arith, key_iff (key r) k, key_iff (key s) k)))
