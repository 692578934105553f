-- ===== src/Ganesha/Exports/Changes.antt =====
-- A removal takes back an addition, and what a reload that fails leaves behind.
use mathlib.Core.List.{append-nil}
use arca_storage.Base.{
  &&-intro, ◌≡◌, refl, ◌∙◌, ap, Bool, true, false, not, Option, some, List, [], ◌∷◌, ◌++◌, All,
  Text, codes, rstrip_slash, filter, filter-append, list_eqb, list_eqb_iff, nat_order, inl, inr,
  Bool-cases,
}
use arca_storage.Results.{err, reload_failed}
use arca_storage.Ganesha.{Export, Config, World, Outside}
use arca_storage.Ganesha.Render.Writes.{reload-failed}
use arca_storage.Ganesha.Exports.{
  load_exports, new_export, is_export, without_export, export_path, store_exports, add_export,
  remove_export,
}
use arca_storage.Ganesha.Exports.Ids.{load-store, load-store_self}

filter-All : (p : Export → Bool) (es : List Export) → All (λ e. p e ≡ true) es → filter p es ≡ es
filter-All p [] h = refl
filter-All p (e ∷ es) h = rw h.0 (ap (λ xs. e ∷ xs) (filter-All p es h.1))

module _ (cfg : Config) (svm_name volume_name client : Text) where
  -- Not an entry that the removal takes: under the configured directory, or the old default one.
  abbrev pub IsOther : Export → Type 0
  IsOther e =
      (is_export (export_path (codes "/exports") svm_name volume_name) client e ≡ false)
      × (is_export (export_path (rstrip_slash cfg.export_dir) svm_name volume_name) client e
          ≡ false)

  old_kept :
      (es : List Export)
      → All IsOther es
      → All
          (λ e.
            not (is_export (export_path (codes "/exports") svm_name volume_name) client e) ≡ true)
          es
  old_kept [] h = tt
  old_kept (e ∷ es) h = (rw h.0.0 refl, old_kept es h.1)

  new_kept :
      (es : List Export)
      → All IsOther es
      → All
          (λ e.
            not
              (is_export (export_path (rstrip_slash cfg.export_dir) svm_name volume_name) client e)
            ≡ true)
          es
  new_kept [] h = tt
  new_kept (e ∷ es) h = (rw h.0.1 refl, new_kept es h.1)

  others_stay :
      (es : List Export) → All IsOther es → without_export cfg svm_name volume_name client es ≡ es
  unfolding without_export
  others_stay es h = rw (filter-All _ es (old_kept es h)) (filter-All _ es (new_kept es h))

  gone :
      (f : Export)
      → is_export (export_path (rstrip_slash cfg.export_dir) svm_name volume_name) client f ≡ true
      → without_export cfg svm_name volume_name client (f ∷ []) ≡ []
  unfolding without_export
  gone f h =
      elim (Bool-cases (is_export (export_path (codes "/exports") svm_name volume_name) client f)) [
        | inl e ↦ rw e refl
        | inr e ↦ rw (e, h) refl
      ]

  without-snoc :
      (es : List Export) (f : Export)
      → is_export (export_path (rstrip_slash cfg.export_dir) svm_name volume_name) client f ≡ true
      → without_export cfg svm_name volume_name client (es ++ f ∷ [])
        ≡ without_export cfg svm_name volume_name client es
  unfolding without_export
  without-snoc es f h =
      let old = λ (e : Export).
        not (is_export (export_path (codes "/exports") svm_name volume_name) client e) in
      let new = λ (e : Export).
        not (is_export (export_path (rstrip_slash cfg.export_dir) svm_name volume_name) client e) in
      ap (filter new) (filter-append old es (f ∷ []))
      ∙ filter-append new (filter old es) (filter old (f ∷ []))
      ∙ ap (λ xs. filter new (filter old es) ++ xs) (gone f h)
      ∙ append-nil (filter new (filter old es))

  added_goes :
      (es : List Export) (access : Text) (root_squash : Bool) (sec : Option (List Text))
      → All IsOther es
      → without_export cfg svm_name volume_name client
          (es ++ new_export cfg es svm_name volume_name client access root_squash sec ∷ [])
        ≡ es
  unfolding new_export
  added_goes es access root_squash sec h =
      without-snoc es (new_export cfg es svm_name volume_name client access root_squash sec)
        (&&-intro _ _ ((list_eqb_iff _ _).1 refl) ((list_eqb_iff _ _).1 refl))
      ∙ others_stay es h

module _ (o : Outside) (cfg : Config) (svm_name volume_name client : Text) where
  -- Where no entry has the client and the path of the export, neither under the configured directory
  -- nor under "/exports", a removal after an addition leaves the entries as they were, for this SVM
  -- and for every other, whatever the outcomes of the reloads.
  pub remove-add_export :
      (access : Text) (root_squash : Bool) (sec : Option (List Text)) (w : World)
      → All (IsOther cfg svm_name volume_name client) (load_exports svm_name w)
      → (svm : Text)
      → let w1 = (add_export o cfg svm_name volume_name client access root_squash sec w).1 in
        load_exports svm (remove_export o cfg svm_name volume_name client w1).1 ≡ load_exports svm w
  unfolding add_export remove_export
  remove-add_export access root_squash sec w h svm =
      let es = load_exports svm_name w in
      let f = new_export cfg es svm_name volume_name client access root_squash sec in
      let w1 = (store_exports o cfg svm_name (es ++ f ∷ []) w).1 in
      elim (Bool-cases (list_eqb svm svm_name)) [
        | inl e ↦
            load-store o cfg svm_name svm
              (without_export cfg svm_name volume_name client (load_exports svm_name w1)) w1
            ∙ rw
                (
                  e,
                  (list_eqb_iff svm svm_name).0 e,
                  load-store_self o cfg svm_name (es ++ f ∷ []) w,
                )
                (added_goes cfg svm_name volume_name client es access root_squash sec h)
        | inr e ↦
            load-store o cfg svm_name svm
              (without_export cfg svm_name volume_name client (load_exports svm_name w1)) w1
            ∙ rw (e, load-store o cfg svm_name svm (es ++ f ∷ []) w, e) refl
      ]

  failed_reload :
      (svm : Text) (es : List Export) (w : World) (stderr : Text)
      → ((u : World) → o.reload svm u ≡ some stderr)
      → (store_exports o cfg svm es w).0 ≡ err (reload_failed stderr)
  unfolding store_exports
  failed_reload svm es w stderr h = reload-failed o cfg svm _ stderr (h _)

  -- Where the reload fails, the addition raises its error, and the new entry is saved all the same.
  pub add_export-reload_failed :
      (access : Text) (root_squash : Bool) (sec : Option (List Text)) (w : World) (stderr : Text)
      → ((u : World) → o.reload svm_name u ≡ some stderr)
      → let f =
          new_export cfg
            (load_exports svm_name w)
            svm_name
            volume_name
            client
            access
            root_squash
            sec in
        let r = add_export o cfg svm_name volume_name client access root_squash sec w in
        (r.0 ≡ err (reload_failed stderr))
        × (load_exports svm_name r.1 ≡ load_exports svm_name w ++ f ∷ [])
  unfolding add_export
  add_export-reload_failed access root_squash sec w stderr h =
      let es = load_exports svm_name w in
      let f = new_export cfg es svm_name volume_name client access root_squash sec in
      (
        failed_reload svm_name (es ++ f ∷ []) w stderr h,
        load-store_self o cfg svm_name (es ++ f ∷ []) w,
      )
