-- ===== src/State/Table/Find.antt =====
-- A table as a finite map from keys: what `find` returns after each update.
use arca_storage.Base.{
  ◌≡◌, ◌↔◌, inl, inr, refl, ap, ◌∙◌, Bool, true, not, Option, none, some, List, [], ◌∷◌, ◌++◌,
  filter, length, length-filter, list_eqb_iff, lex_total, nat_order, list_order, Bool-cases, arith,
  if◌then◌else◌,
}
use arca_storage.State.Table.{Key, key_eqb, key_le, insert, sorted, find, put}

pub key_iff : (j k : Key) → (key_eqb j k ≡ true) ↔ (j ≡ k)
key_iff j k = list_eqb_iff j k

pub key_le_refl : (k : Key) → key_le k k ≡ true
key_le_refl k = elim (Bool-cases (key_le k k)) [ inl e ↦ e | inr e ↦ lex_total k k e ]

module _ {ℓ} {R : Type ℓ} (key : R → Key) where
  find-insert :
      (k : Key) (r : R) (rs : List R)
      → find key k (insert key r rs) ≡ (if key_eqb (key r) k then some r else find key k rs)
  unfolding find insert
  find-insert k r [] = refl
  find-insert k r (s ∷ rs) =
      ground (arith, find-insert k r rs, key_iff (key r) k, key_iff (key s) k, key_le_refl (key r))

  pub find-sorted : (k : Key) (rs : List R) → find key k (sorted key rs) ≡ find key k rs
  unfolding sorted find
  find-sorted k [] = refl
  find-sorted k (r ∷ rs) =
      find-insert k r (sorted key rs)
      ∙ ap (λ o. if key_eqb (key r) k then some r else o) (find-sorted k rs)

  pub find-append :
      (k : Key) (rs ss : List R)
      → find key k (rs ++ ss) ≡ elim (find key k rs) [ some r ↦ some r | none ↦ find key k ss ]
  unfolding find
  find-append k [] ss = refl
  find-append k (r ∷ rs) ss = ground (arith, find-append k rs ss)

module _ {ℓ} {R : Type ℓ} (key : R → Key) (p : R → Bool) (j : Key)
    (p_iff : (i : R) → (p i ≡ true) ↔ (key i ≡ j)) where
  -- The removal of the records with one key leaves the others.
  pub find-filter :
      (k : Key) (items : List R)
      → find key k (filter (λ i. not (p i)) items)
        ≡ (if key_eqb j k then none else find key k items)
  unfolding find
  find-filter k [] = ground arith
  find-filter k (i ∷ items) =
      ground (arith, find-filter k items, p_iff i, key_iff j k, key_iff (key i) k)

  -- The length falls exactly where there was a record to remove.
  pub length-filter-find :
      (items : List R)
      → (length (filter (λ i. not (p i)) items) ≡ length items) ↔ (find key j items ≡ none)
  unfolding find
  length-filter-find [] = ((λ _. refl), (λ _. refl))
  length-filter-find (i ∷ items) =
      let ih = length-filter-find items in
      let short = length-filter (λ x. not (p x)) items in
      let here = p_iff i in
      let eqb = key_iff (key i) j in ((λ h. ground arith), (λ h. ground arith))

module _ {ℓ} {R : Type ℓ} (key : R → Key) (same : R → R → Bool)
    (same_iff : (i r : R) → (same i r ≡ true) ↔ (key i ≡ key r)) where
  last_one :
      (k : Key) (r : R) (o : Option R)
      → elim (if key_eqb (key r) k then none else o) [
        | some x ↦ some x
        | none ↦ find key k (r ∷ [])
      ]
        ≡ (if key_eqb (key r) k then some r else o)
  unfolding find
  last_one k r none = ground arith
  last_one k r (some x) = ground arith

  -- After an update its key has the new record, and every other key what it had.
  pub find-put :
      (k : Key) (r : R) (items : List R)
      → find key k (put key same r items) ≡ (if key_eqb (key r) k then some r else find key k items)
  unfolding put
  find-put k r items =
      find-sorted key k (filter (λ i. not (same i r)) items ++ r ∷ [])
      ∙ find-append key k (filter (λ i. not (same i r)) items) (r ∷ [])
      ∙ rw (find-filter key (λ i. same i r) (key r) (λ i. same_iff i r) k items)
          (last_one k r (find key k items))
