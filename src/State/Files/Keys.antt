-- ===== src/State/Files/Keys.antt =====
-- The tests of the three files compare keys, and what a removal does to a table.
use arca_storage.Base.{
  ◌≡◌, ◌≢◌, ◌↔◌, refl, ap, Bool, true, false, ◌&&◌, not, Option, none, some, List, [], ◌∷◌, Text,
  filter, list_eqb, list_eqb_iff, nat_order, list_order, &&-eq-true, &&-intro, arith, if◌then◌else◌,
}
use arca_storage.State.Table.{Key, key_eqb, find}
use arca_storage.State.Table.Find.{key_iff, find-filter, length-filter-find}
use arca_storage.State.Table.Sorted.{IsTable, find-Below}
use arca_storage.State.Table.Update.{filter-IsTable}
use arca_storage.State.Files.{
  Svm, Volume, Snapshot, items_of, removed, svm_key, volume_key, snapshot_key, is_svm, is_volume,
  is_snapshot,
}

cons-injective : {x y : Text} {xs ys : Key} → ◌≡◌ {A = Key} (x ∷ xs) (y ∷ ys) → (x ≡ y) × (xs ≡ ys)
cons-injective h = (cc, cc)

pub is_svm_iff : (name : Text) (i : Svm) → (is_svm name i ≡ true) ↔ (svm_key i ≡ name ∷ [])
is_svm_iff name i = (
  λ h. ap (λ n. n ∷ []) ((list_eqb_iff i.name name).0 h),
  λ h. (list_eqb_iff i.name name).1 (cons-injective h).0,
)

pub is_volume_iff :
    (svm name : Text) (i : Volume)
    → (is_volume svm name i ≡ true) ↔ (volume_key i ≡ svm ∷ name ∷ [])
is_volume_iff svm name i =
    let a = list_eqb_iff i.svm svm in
    let b = list_eqb_iff i.name name in
    (
      (λ h.
          let r = &&-eq-true (list_eqb i.svm svm) (list_eqb i.name name) h in
          cc (a.0 r.0, b.0 r.1)),
      (λ h. &&-intro _ _ (a.1 (cc)) (b.1 (cc))),
    )

pub is_snapshot_iff :
    (svm volume name : Text) (i : Snapshot)
    → (is_snapshot svm volume name i ≡ true) ↔ (snapshot_key i ≡ svm ∷ volume ∷ name ∷ [])
is_snapshot_iff svm volume name i =
    let a = list_eqb_iff i.svm svm in
    let b = list_eqb_iff i.volume volume in
    let c = list_eqb_iff i.name name in
    (
      (λ h.
          let r =
            &&-eq-true (list_eqb i.svm svm && list_eqb i.volume volume) (list_eqb i.name name) h in
          let q = &&-eq-true (list_eqb i.svm svm) (list_eqb i.volume volume) r.0 in
          cc (a.0 q.0, b.0 q.1, c.0 r.1)),
      (λ h. &&-intro _ _ (&&-intro _ _ (a.1 (cc)) (b.1 (cc))) (c.1 (cc))),
    )

abbrev pub one_or_none {ℓ} : {R : Type ℓ} → Option R → List R
one_or_none none = []
one_or_none (some r) = r ∷ []

module _ {ℓ} {R : Type ℓ} (key : R → Key) (p : R → Bool) (k : Key)
    (p_iff : (i : R) → (p i ≡ true) ↔ (key i ≡ k)) where
  -- What a removal leaves, and what it answers.
  pub removed_lem :
      (file : Option (List R)) (j : Key)
      → (find key j (items_of (removed p file).0)
          ≡ (if key_eqb k j then none else find key j (items_of file)))
        × (((removed p file).1 ≡ true) ↔ (find key k (items_of file) ≢ none))
        × ((removed p file).1 ≡ false → (removed p file).0 ≡ file)
  removed_lem file j =
      let items = items_of file in
      let kept = find-filter key p k p_iff j items in
      let gone = length-filter-find key p k p_iff items in
      let eqb = key_iff k j in
      (ground arith, ((λ h. ground arith), (λ h. ground arith)), ground arith)

  pub removed-IsTable :
      (file : Option (List R))
      → IsTable key (items_of file)
      → IsTable key (items_of (removed p file).0)
  removed-IsTable file t = ground (arith, filter-IsTable key (λ i. not (p i)) (items_of file) t)

  -- In a table the records with one key are the one that `find` returns.
  pub filter_one :
      (items : List R) → IsTable key items → filter p items ≡ one_or_none (find key k items)
  unfolding find
  filter_one [] t = refl
  filter_one (r ∷ items) t = ground (
    arith,
    filter_one items t.1,
    p_iff r,
    key_iff (key r) k,
    λ (e : key r ≡ k). find-Below key k items (rw (← e) t.0),
  )
