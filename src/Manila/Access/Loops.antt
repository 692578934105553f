-- ===== src/Manila/Access/Loops.antt =====
-- What the loops of the reconciliation leave in the backend.
use arca_storage.Base.{
  ◌≡◌, ◌⊎◌, inl, inr, true, not, ◌&&◌, Option, none, some, List, [], ◌∷◌, ◌++◌, Text, contains,
  list_eqb, nat_order, list_order, list_eqb_iff, Option-cases, if◌then◌else◌, arith,
}
use arca_storage.Manila.Access.Dicts.{
  Dict, look_up, has_key, contains-keys, contains-filter, contains-append,
}
use arca_storage.Manila.Access.{
  ExportInfo, ExportApi, to_delete, to_add, to_update, differs, delete_each, create_each,
  apply_changes,
}

-- What a volume's exports are to the backend: the stored level by client. `stored` is the
-- spelling in which the backend keeps a level.
pub record Backend {W : Type 0} (api : ExportApi W) (svm_name volume_name : Text) : Type 0 where
  pub entries : W → Text → Option Text
  pub stored : Text → Text
  pub stored_again : (w : W) (k a : Text) → entries w k ≡ some a → stored a ≡ a
  pub deleted :
      (w : W) (k c : Text)
      → entries (api.delete_export svm_name volume_name k w).1 c
        ≡ (if list_eqb k c then none else entries w c)
  pub created :
      (w : W) (k l c : Text)
      → (entries w k ≡ none) ⊎ (entries w k ≡ some (stored l))
      → entries (api.create_export svm_name volume_name k l true w).1 c
        ≡ (if list_eqb k c then some (stored l) else entries w c)

abbrev pub client_of : ExportInfo → Text
client_of e = elim e.client [ none ↦ [] | some t ↦ t ]

module _ {W : Type 0} {api : ExportApi W} {svm volume : Text} (b : Backend api svm volume) where
  -- Every key that is asked for is free, or has its entry.
  abbrev pub Ready : Dict Text → W → Type 0
  Ready desired w =
      (k l : Text)
      → look_up k desired ≡ some l
      → (b.entries w k ≡ none) ⊎ (b.entries w k ≡ some (b.stored l))

  create-Ready :
      (desired : Dict Text) (w : W) (k l : Text)
      → look_up k desired ≡ some l
      → Ready desired w
      → Ready desired (api.create_export svm volume k l true w).1
  create-Ready desired w k l e ready k' l' e' =
      grind (arith, list_eqb_iff, b.created w k l k' (ready k l e), ready k' l' e')

  create_each-entries :
      (desired : Dict Text) (ks : List Text) (w : W) (c : Text)
      → Ready desired w
      → b.entries (create_each api svm volume desired ks w) c ≡ elim (look_up c desired) [
        | none ↦ b.entries w c
        | some l ↦ if contains c ks then some (b.stored l) else b.entries w c
      ]
  unfolding create_each
  create_each-entries desired [] w c ready = grind arith
  create_each-entries desired (k ∷ ks) w c ready = elim (Option-cases (look_up k desired)) [
    | inl e ↦ grind (arith, list_eqb_iff, create_each-entries desired ks w c ready)
    | inr (l, e) ↦
        let w' = (api.create_export svm volume k l true w).1 in
        let ih = create_each-entries desired ks w' c (create-Ready desired w k l e ready) in
        let step = b.created w k l c (ready k l e) in grind (arith, list_eqb_iff)
  ]

  -- Every key that is known is spelled as the backend spells it.
  abbrev pub Spelled : Dict (Text × Text) → Type 0
  Spelled current = (k raw a : Text) → look_up k current ≡ some (raw, a) → raw ≡ k

  delete_each-entries :
      (current : Dict (Text × Text)) (ks : List Text) (w : W) (c : Text)
      → Spelled current
      → b.entries (delete_each api svm volume current ks w) c
        ≡ (if contains c ks && has_key c current then none else b.entries w c)
  unfolding delete_each
  delete_each-entries current [] w c spelled = grind arith
  delete_each-entries current (k ∷ ks) w c spelled = elim (Option-cases (look_up k current)) [
    | inl e ↦ grind (arith, list_eqb_iff, delete_each-entries current ks w c spelled)
    | inr ((raw, a), e) ↦
        let w' = (api.delete_export svm volume raw w).1 in
        let ih = delete_each-entries current ks w' c spelled in
        let step = b.deleted w raw c in let same = spelled k raw a e in grind (arith, list_eqb_iff)
  ]

  -- What the driver knows of the backend is what it has.
  abbrev pub Known : Dict (Text × Text) → W → Type 0
  Known current w =
      (k : Text)
      → ((look_up k current ≡ none) × (b.entries w k ≡ none))
        ⊎ ((a : Text) × (look_up k current ≡ some (k, a)) × (b.entries w k ≡ some a))

  Known-Spelled : (current : Dict (Text × Text)) (w : W) → Known current w → Spelled current
  Known-Spelled current w known k raw a e = grind (arith, known k)

  -- What the deletions leave: the entries that are asked for as they are.
  after_deletions :
      (desired : Dict Text) (current : Dict (Text × Text)) (w : W) (c : Text)
      → Known current w
      → b.entries
          (delete_each api svm volume current
            (to_delete desired current ++ to_update desired current)
            w)
          c
        ≡ (if has_key c desired && not (differs (look_up c desired) (look_up c current))
            then b.entries w c
            else none)
  unfolding to_delete to_update
  after_deletions desired current w c known =
      let d =
        delete_each-entries current (to_delete desired current ++ to_update desired current) w c
          (Known-Spelled current w known) in
      grind (arith, contains-append, contains-filter, contains-keys, known c)

  deletions-Ready :
      (desired : Dict Text) (current : Dict (Text × Text)) (w : W)
      → Known current w
      → Ready desired (
          delete_each api svm volume current
            (to_delete desired current ++ to_update desired current)
            w)
  deletions-Ready desired current w known k l e =
      let left = after_deletions desired current w k known in
      grind (arith, list_eqb_iff, b.stored_again w k l, known k)

  pub apply_changes-entries :
      (desired : Dict Text) (current : Dict (Text × Text)) (w : W) (c : Text)
      → Known current w
      → b.entries (apply_changes api svm volume desired current w) c
        ≡ elim (look_up c desired) [ none ↦ none | some l ↦ some (b.stored l) ]
  unfolding apply_changes to_add to_update
  apply_changes-entries desired current w c known =
      let w1 =
        delete_each api svm volume current (to_delete desired current ++ to_update desired current)
          w in
      let made =
        create_each-entries desired (to_add desired current ++ to_update desired current) w1 c
          (deletions-Ready desired current w known) in
      let left = after_deletions desired current w c known in
      grind (
        arith,
        list_eqb_iff,
        contains-append,
        contains-filter,
        contains-keys,
        known c,
        b.stored_again w c,
      )
