-- ===== src/Cinder/Files/Placed.antt =====
-- What the ways of putting the temporary file of a copy in its place leave.
use arca_storage.Base.{
  ℕ, ◌≡◌, ◌≢◌, sym, ◌⊎◌, inl, inr, refl, false, Option, none, some, ◌∙◌, Text, list_eqb, nat_order,
  list_eqb_iff, eqb_refl, Bool-cases, Option-cases, arith,
}
use arca_storage.Results.{Result, Result-cases, ok}
use arca_storage.Cinder.{Fault, OsFault, file_exists, os_fault, Node}
use arca_storage.Cinder.Files.{rename_unless_there, not_linked, link_to, copy_to_temp}
use arca_storage.Cinder.Files.Disk.{Disk}

module _ {W C : Type 0} {n : Node W} (k : Disk n C) where
  -- Two states differ at these two paths at most.
  abbrev pub Apart : Text → Text → W → W → Type 0
  Apart d t w w' = (q : Text) → q ≢ d → q ≢ t → k.file w' q ≡ k.file w q

  -- A file has not changed, or is a new one with this content.
  abbrev pub Whole : Option C → Text → W → W → Type 0
  Whole c d w w' = (k.file w' d ≡ k.file w d) ⊎ ((k.file w d ≡ none) × (k.file w' d ≡ c))

  not_there : (w : W) (p : Text) → n.exists p w ≡ false → k.file w p ≡ none
  not_there w p e = elim (Option-cases (k.file w p)) [
    | inl h ↦ h
    | inr (c, h) ↦ absurd (grind (arith, k.there w p c h, e))
  ]

  same_apart : (a b : Text) → a ≢ b → list_eqb a b ≡ false
  same_apart a b h = elim (Bool-cases (list_eqb a b)) [
    | inl e ↦ absurd (h ((list_eqb_iff a b).0 e))
    | inr e ↦ e
  ]

  pub remove-file : (w : W) (p q : Text) → q ≢ p → k.file (n.remove p w).1 q ≡ k.file w q
  remove-file w p q h = elim (Result-cases (n.remove p w).0) [
    | inl (u, e) ↦ rw (k.removed w p q e) (rw (same_apart q p h) refl)
    | inr (x, e) ↦ k.not_removed w p q x e
  ]

  linked-dest :
      (w : W) (p d : Text) → (n.link p d w).0 ≡ ok tt → k.file (n.link p d w).1 d ≡ k.file w p
  linked-dest w p d e = rw (k.linked w p d d e).1 (rw (eqb_refl d) refl)

  linked-other :
      (w : W) (p d q : Text)
      → q ≢ d
      → (n.link p d w).0 ≡ ok tt
      → k.file (n.link p d w).1 q ≡ k.file w q
  linked-other w p d q h e = rw (k.linked w p d q e).1 (rw (same_apart q d h) refl)

  pub copy_to_temp-file :
      (source temp : Text) (timeout : ℕ) (w : W) (q : Text)
      → q ≢ temp
      → k.file (copy_to_temp n source temp timeout w).1 q ≡ k.file w q
  unfolding copy_to_temp
  copy_to_temp-file source temp timeout w q h =
      grind (arith, k.copied w source temp q timeout, k.changed_mode, k.synced)

  pub copy_to_temp-whole :
      (source temp : Text) (timeout : ℕ) (w : W) (c : C)
      → k.file w source ≡ some c
      → (copy_to_temp n source temp timeout w).0 ≡ ok tt
      → k.file (copy_to_temp n source temp timeout w).1 temp ≡ some c
  unfolding copy_to_temp
  copy_to_temp-whole source temp timeout w c there h =
      grind (arith, k.copied_all w source temp timeout c there, k.changed_mode, k.synced)

  -- What a way of placing the temporary file leaves, where the file was placed or not.
  abbrev pub Placed : Text → Text → W → Result Fault (Unit {0}) × W → Type 0
  Placed t d w r =
      Apart d t w r.1
      × Whole (k.file w t) d w r.1
      × ((r.0 ≡ ok tt) → (k.file r.1 d ≡ k.file w t) × (k.file r.1 t ≡ none))

  rename-Placed :
      (t d : Text) (w : W) (c : C)
      → k.file w t ≡ some c
      → t ≢ d
      → Placed t d w (rename_unless_there n t d w)
  unfolding rename_unless_there
  rename-Placed t d w c there apart = elim (Bool-cases (n.exists d w)) [
    | inl e ↦ (λ q a b. grind (arith, e), inl (grind (arith, e)), λ done. absurd (grind (arith, e)))
    | inr e ↦ elim (Result-cases (n.rename t d w).0) [
      | inl (u, f) ↦ (
        λ q a b. grind (arith, e, k.renamed w t d q c there f, same_apart q d a, same_apart q t b),
        inr (not_there w d e, grind (arith, e, k.renamed w t d d c there f, eqb_refl d)),
        λ done. (
          grind (arith, e, k.renamed w t d d c there f, eqb_refl d),
          grind (arith, e, k.renamed w t d t c there f, same_apart t d apart, eqb_refl t),
        ),
      )
      | inr (x, f) ↦ (
        λ q a b. grind (arith, e, k.not_renamed w t d q x f),
        inl (grind (arith, e, k.not_renamed w t d d x f)),
        λ done. absurd (grind (arith, e, f)),
      )
    ]
  ]

  -- The same after an exception of `os.link` or of `os.unlink`.
  not_linked-Placed :
      (t d : Text) (x : OsFault) (w : W) (c : C)
      → k.file w t ≡ some c
      → t ≢ d
      → Placed t d w (not_linked n t d x w)
  unfolding not_linked
  not_linked-Placed t d file_exists w c there apart =
      (λ q a b. refl, inl refl, λ done. absurd (grind arith))
  not_linked-Placed t d os_fault w c there apart = rename-Placed t d w c there apart

  pub link_to-Placed :
      (t d : Text) (w : W) (c : C) → k.file w t ≡ some c → t ≢ d → Placed t d w (link_to n t d w)
  unfolding link_to
  link_to-Placed t d w c there apart = elim (Result-cases (n.link t d w).0) [
    | inr (x, e) ↦
        let p =
          not_linked-Placed t d x (n.link t d w).1 c (k.not_linked w t d t x e ∙ there) apart in
        let same = λ (q : Text). k.not_linked w t d q x e in
        (
          λ q a b. grind (arith, e, p.0 q a b, same q),
          grind (arith, e, p.1, same t, same d),
          λ done. grind (arith, e, done, p.2, same t, same d),
        )
    | inl (u, e) ↦
        let w1 = (n.link t d w).1 in
        let free = (k.linked w t d d e).0 in
        let made : k.file w1 d ≡ k.file w t = linked-dest w t d e in
        let temp : k.file w1 t ≡ k.file w t = linked-other w t d t apart e in
        let here = λ (q : Text) (a : q ≢ d) (b : q ≢ t). linked-other w t d q a e in
        let gone = λ (q : Text) (b : q ≢ t). remove-file w1 t q b in
        elim (Result-cases (n.remove t w1).0) [
          | inl (v, f) ↦ (
            λ q a b. grind (arith, e, f, here q a b, gone q b),
            inr (
              free,
              grind (arith, e, f, k.removed w1 t d f, same_apart d t (λ z. apart (sym z)), made),
            ),
            λ done. (
              grind (arith, e, f, k.removed w1 t d f, same_apart d t (λ z. apart (sym z)), made),
              grind (arith, e, f, k.removed w1 t t f, eqb_refl t),
            ),
          )
          | inr (x, f) ↦
              let w2 = (n.remove t (n.link t d w).1).1 in
              let p =
                not_linked-Placed t d x w2 c (k.not_removed w1 t t x f ∙ temp ∙ there) apart in
              let kept = λ (q : Text). k.not_removed w1 t q x f in
              (
                λ q a b. grind (arith, e, f, p.0 q a b, kept q, here q a b),
                inr (free, grind (arith, e, f, p.1, kept d, kept t, made, temp)),
                λ done. grind (arith, e, f, done, p.2, kept t, temp),
              )
        ]
  ]
