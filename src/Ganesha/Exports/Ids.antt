-- ===== src/Ganesha/Exports/Ids.antt =====
-- The ids of the exports of an SVM stay distinct.
use arca_storage.Base.{
  ℕ, ◌+◌, ◌≤◌, ◌<◌, ◌≡◌, ◌≢◌, refl, ◌∙◌, ap, Bool, Option, List, [], ◌∷◌, ◌++◌, All, All-filter,
  All-append, Text, filter, list_eqb, list_eqb_iff, nat_order, inl, inr, Bool-cases, arith,
  if◌then◌else◌,
}
use arca_storage.Ganesha.{Export, Config, World, Outside}
use arca_storage.Ganesha.Render.Writes.{exports-render, reload_keeps}
use arca_storage.Ganesha.Exports.{
  or_empty, load_exports, save_exports, max_id, new_export, without_export, store_exports,
  add_export, remove_export,
}

-- No two entries have one id.
abbrev pub HasDistinctIds : List Export → Type 0
HasDistinctIds [] = Unit
HasDistinctIds (e ∷ es) = All (λ f. e.export_id ≢ f.export_id) es × HasDistinctIds es

max_id-bound : (n : ℕ) (es : List Export) → max_id es ≤ n → All (λ e. e.export_id ≤ n) es
unfolding max_id
max_id-bound n [] h = tt
max_id-bound n (e ∷ es) h = (ground arith, max_id-bound n es (ground arith))

below_suc :
    (n : ℕ) (es : List Export) → All (λ e. e.export_id ≤ n) es → All (λ e. e.export_id < n + 1) es
below_suc n [] h = tt
below_suc n (e ∷ es) h = (omega (arith, h.0), below_suc n es h.1)

filter-distinct :
    (p : Export → Bool) (es : List Export) → HasDistinctIds es → HasDistinctIds (filter p es)
filter-distinct p [] h = tt
filter-distinct p (e ∷ es) h =
    ground (arith, All-filter (λ f. e.export_id ≢ f.export_id) p es h.0, filter-distinct p es h.1)

snoc-distinct :
    (es : List Export) (f : Export)
    → HasDistinctIds es
    → All (λ e. e.export_id < f.export_id) es
    → HasDistinctIds (es ++ f ∷ [])
snoc-distinct [] f h b = (tt, tt)
snoc-distinct (e ∷ es) f h b = (
  All-append (λ x. e.export_id ≢ x.export_id) es (f ∷ []) h.0 (omega (arith, b.0), tt),
  snoc-distinct es f h.1 b.1,
)

module _ (o : Outside) (cfg : Config) where
  fresh :
      (es : List Export) (svm_name volume_name client access : Text) (root_squash : Bool)
      (sec : Option (List Text))
      → All
          (λ e.
            e.export_id
            < (new_export cfg es svm_name volume_name client access root_squash sec).export_id)
          es
  unfolding new_export
  fresh es svm_name volume_name client access root_squash sec =
      below_suc (max_id es) es (max_id-bound (max_id es) es (omega arith))

  without-distinct :
      (svm_name volume_name client : Text) (es : List Export)
      → HasDistinctIds es
      → HasDistinctIds (without_export cfg svm_name volume_name client es)
  unfolding without_export
  without-distinct svm_name volume_name client es h = filter-distinct _ _ (filter-distinct _ es h)

  exports-store :
      (svm_name : Text) (es : List Export) (w : World)
      → (store_exports o cfg svm_name es w).1.exports ≡ (save_exports svm_name es w).exports
  unfolding store_exports
  exports-store svm_name es w =
      ap (λ (u : World). u.exports) (reload_keeps o cfg svm_name _)
      ∙ exports-render o cfg svm_name es (save_exports svm_name es w)

  saved :
      (svm_name svm : Text) (es : List Export) (w : World)
      → load_exports svm (save_exports svm_name es w)
        ≡ (if list_eqb svm svm_name then es else load_exports svm w)
  unfolding load_exports save_exports
  saved svm_name svm es w = elim (Bool-cases (list_eqb svm svm_name)) [
    | inl e ↦ rw e refl
    | inr e ↦ rw e refl
  ]

  -- What is saved is what is read for this SVM, and every other SVM keeps its exports, whatever the
  -- outcome of the reload.
  pub load-store :
      (svm_name svm : Text) (es : List Export) (w : World)
      → load_exports svm (store_exports o cfg svm_name es w).1
        ≡ (if list_eqb svm svm_name then es else load_exports svm w)
  unfolding load_exports
  load-store svm_name svm es w =
      ap (λ (f : Text → Option (List Export)). or_empty (f svm)) (exports-store svm_name es w)
      ∙ saved svm_name svm es w

  pub load-store_self :
      (svm_name : Text) (es : List Export) (w : World)
      → load_exports svm_name (store_exports o cfg svm_name es w).1 ≡ es
  load-store_self svm_name es w =
      load-store svm_name svm_name es w ∙ rw ((list_eqb_iff svm_name svm_name).1 refl) refl

  -- The new entry's id is greater than every id of the SVM, so the ids stay distinct under an
  -- addition and under a removal, whatever the outcome of the reload.
  pub export_ids_distinct :
      (svm_name volume_name client access : Text) (root_squash : Bool) (sec : Option (List Text))
      (w : World)
      → HasDistinctIds (load_exports svm_name w)
      → HasDistinctIds (
          load_exports svm_name
            (add_export o cfg svm_name volume_name client access root_squash sec w).1)
        × HasDistinctIds
            (load_exports svm_name (remove_export o cfg svm_name volume_name client w).1)
        × All
            (λ e.
              e.export_id
              < (new_export cfg
                  (load_exports svm_name w)
                  svm_name
                  volume_name
                  client
                  access
                  root_squash
                  sec).export_id)
            (load_exports svm_name w)
  unfolding add_export remove_export
  export_ids_distinct svm_name volume_name client access root_squash sec w h =
      let es = load_exports svm_name w in
      let f = new_export cfg es svm_name volume_name client access root_squash sec in
      let bound = fresh es svm_name volume_name client access root_squash sec in
      (
        rw (load-store_self svm_name (es ++ f ∷ []) w) (snoc-distinct es f h bound),
        rw (load-store_self svm_name (without_export cfg svm_name volume_name client es) w)
            (without-distinct svm_name volume_name client es h),
        bound,
      )
