-- ===== src/Actions.antt =====
-- Actions on a state that may raise. What was done before a raise stays done.
use mathlib.Core.Bool.{Bool, true, false}
use arca_storage.Results.{Error, ok, err, Checked}

abbrev pub Action {ℓ κ} : Type ℓ → Type κ → Type (ℓ ⊔ κ)
Action S A = S → Checked A × S

module _ {ℓ κ} {S : Type ℓ} {A : Type κ} where
  abbrev pub pure : A → Action S A
  pure a s = (ok a, s)

  abbrev pub raise : Error → Action S A
  raise e s = (err e, s)

  abbrev pub lift : Checked A → Action S A
  lift r s = (r, s)

module _ {ℓ κ μ} {S : Type ℓ} {A : Type κ} {B : Type μ} where
  abbrev pub continue : Checked A → (A → Action S B) → Action S B
  continue (ok a) f s = f a s
  continue (err e) f s = (err e, s)

  infixl 5 ◌>>=◌ ◌>>◌
  abbrev pub ◌>>=◌ : Action S A → (A → Action S B) → Action S B
  ◌>>=◌ m f s = let (r, s') = m s in continue r f s'

  abbrev pub ◌>>◌ : Action S A → Action S B → Action S B
  m >> n = m >>= λ _. n

-- `if b: raise e`
abbrev pub raise_when {ℓ} : {S : Type ℓ} → Bool → Error → Action S (Unit {0})
raise_when true e s = (err e, s)
raise_when false e s = (ok tt, s)
