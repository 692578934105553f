-- ===== src/Ganesha/Render/Writes.antt =====
-- What the writes of a rendering change, and that a second rendering writes nothing.
use arca_storage.Base.{
  inl, inr, ◌≡◌, refl, ◌∙◌, ap, some, List, Text, list_eqb, list_eqb_iff, nat_order, Bool-cases,
  Option-cases, arith, if◌then◌else◌,
}
use arca_storage.Results.{reload_failed, err}
use arca_storage.Ganesha.{Export, Config, World, Outside}
use arca_storage.Ganesha.Render.{write_if_changed, reload, render_config}

module _ (path content : Text) (w : World) where
  pub exports-write : (write_if_changed path content w).exports ≡ w.exports
  unfolding write_if_changed
  exports-write = ground arith

  kept :
      (p : Text)
      → w.texts path ≡ some content
      → w.texts p ≡ (if list_eqb p path then some content else w.texts p)
  kept p h = elim (Bool-cases (list_eqb p path)) [
    | inl e ↦ rw (e, (list_eqb_iff p path).0 e, h) refl
    | inr e ↦ rw e refl
  ]

  -- The path holds the content, and every other path what it held.
  pub texts-write :
      (p : Text)
      → (write_if_changed path content w).texts p
        ≡ (if list_eqb p path then some content else w.texts p)
  unfolding write_if_changed
  texts-write p = elim (Option-cases (w.texts path)) [
    | inl e ↦ rw (e, write_if_changed) refl
    | inr (old, e) ↦ elim (Bool-cases (list_eqb old content)) [
      | inl same ↦
          rw (e, write_if_changed, same) (kept p (e ∙ ap some ((list_eqb_iff old content).0 same)))
      | inr new ↦ rw (e, write_if_changed, new) refl
    ]
  ]

  -- Nothing is written where the content is there already.
  pub write-same : w.texts path ≡ some content → write_if_changed path content w ≡ w
  unfolding write_if_changed
  write-same h = ground (arith, list_eqb_iff content content)

module _ (o : Outside) (cfg : Config) (svm_name : Text) where
  pub exports-render :
      (exports : List Export) (w : World)
      → (render_config o cfg svm_name exports w).1.exports ≡ w.exports
  unfolding render_config
  exports-render exports w = simp exports-write

  pub reload_keeps : (w : World) → (reload o svm_name w).1 ≡ w
  unfolding reload
  reload_keeps w = ground arith

  pub reload-failed :
      (w : World) (stderr : Text)
      → o.reload svm_name w ≡ some stderr
      → (reload o svm_name w).0 ≡ err (reload_failed stderr)
  unfolding reload
  reload-failed w stderr h = rw (h, reload) refl
