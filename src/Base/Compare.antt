-- ===== src/Base/Compare.antt =====
-- Python's `==` and `<=` on the values that the program compares: integers, texts (by code points)
-- and tuples of texts, the last two by the lexicographic order.
use Prim.Native.Nat.{ℕ}
use mathlib.Core.Path.{◌≡◌, refl}
use mathlib.Core.Logic.{◌↔◌}
use mathlib.Core.Bool.{Bool, true, false, ◌&&◌}
use mathlib.Core.List.{List, [], ◌∷◌}
use native.Mathlib.Omega.{arith}
use arca_storage.Base.Tests.{nat_eqb, leb, if◌then◌else◌}

pub record Order {ℓ} (A : Type ℓ) : Type ℓ where
  pub eqb : A → A → Bool
  pub eqb_iff : (a b : A) → (eqb a b ≡ true) ↔ (a ≡ b)
  pub le : A → A → Bool
  pub le_total : (a b : A) → le a b ≡ false → le b a ≡ true
  pub le_antisym : (a b : A) → le a b ≡ true → le b a ≡ true → a ≡ b
  pub le_trans : (a b c : A) → le a b ≡ true → le b c ≡ true → le a c ≡ true

infix 50 ◌==◌
abbrev pub ◌==◌ {ℓ} : {A : Type ℓ} ⦃o : Order A⦄ → A → A → Bool
◌==◌ ⦃o⦄ = o.eqb

pub nat_eqb_iff : (a b : ℕ) → (nat_eqb a b ≡ true) ↔ (a ≡ b)
nat_eqb_iff a b = ground arith

pub nat_total : (a b : ℕ) → leb a b ≡ false → leb b a ≡ true
nat_total a b h = ground arith

pub nat_antisym : (a b : ℕ) → leb a b ≡ true → leb b a ≡ true → a ≡ b
nat_antisym a b h k = ground arith

pub nat_trans : (a b c : ℕ) → leb a b ≡ true → leb b c ≡ true → leb a c ≡ true
nat_trans a b c h k = ground arith

instance abbrev pub nat_order : Order ℕ
nat_order = record {
  eqb = nat_eqb;
  eqb_iff = nat_eqb_iff;
  le = leb;
  le_total = nat_total;
  le_antisym = nat_antisym;
  le_trans = nat_trans;
}

module _ {ℓ} {A : Type ℓ} ⦃o : Order A⦄ where
  unfoldable pub list_eqb : List A → List A → Bool
  list_eqb [] [] = true
  list_eqb [] (y ∷ ys) = false
  list_eqb (x ∷ xs) [] = false
  list_eqb (x ∷ xs) (y ∷ ys) = o.eqb x y && list_eqb xs ys

  unfoldable pub lex_le : List A → List A → Bool
  lex_le [] ys = true
  lex_le (x ∷ xs) [] = false
  lex_le (x ∷ xs) (y ∷ ys) = if o.eqb x y then lex_le xs ys else o.le x y

  eqb→eq : (xs ys : List A) → list_eqb xs ys ≡ true → xs ≡ ys
  unfolding list_eqb
  eqb→eq [] [] h = refl
  eqb→eq [] (y ∷ ys) h = cc
  eqb→eq (x ∷ xs) [] h = cc
  eqb→eq (x ∷ xs) (y ∷ ys) h = ground (arith, o.eqb_iff x y, eqb→eq xs ys)

  pub eqb_refl : (xs : List A) → list_eqb xs xs ≡ true
  unfolding list_eqb
  eqb_refl [] = refl
  eqb_refl (x ∷ xs) = ground (arith, o.eqb_iff x x, eqb_refl xs)

  pub list_eqb_iff : (xs ys : List A) → (list_eqb xs ys ≡ true) ↔ (xs ≡ ys)
  list_eqb_iff xs ys = (eqb→eq xs ys, λ e. rw e (eqb_refl ys))

  pub not-eqb→not-eq : (xs ys : List A) → list_eqb xs ys ≡ false → ¬ (xs ≡ ys)
  not-eqb→not-eq xs ys h e = grind (arith, list_eqb_iff xs ys, h, e)

  pub lex_total : (xs ys : List A) → lex_le xs ys ≡ false → lex_le ys xs ≡ true
  unfolding lex_le
  lex_total [] ys h = cc
  lex_total (x ∷ xs) [] h = refl
  lex_total (x ∷ xs) (y ∷ ys) h =
      ground (arith, o.eqb_iff x y, o.eqb_iff y x, o.le_total x y, lex_total xs ys)

  pub lex_antisym : (xs ys : List A) → lex_le xs ys ≡ true → lex_le ys xs ≡ true → xs ≡ ys
  unfolding lex_le
  lex_antisym [] [] h k = refl
  lex_antisym [] (y ∷ ys) h k = cc
  lex_antisym (x ∷ xs) [] h k = cc
  lex_antisym (x ∷ xs) (y ∷ ys) h k =
      ground (arith, o.eqb_iff x y, o.eqb_iff y x, o.le_antisym x y, lex_antisym xs ys)

  pub lex_trans :
      (xs ys zs : List A) → lex_le xs ys ≡ true → lex_le ys zs ≡ true → lex_le xs zs ≡ true
  unfolding lex_le
  lex_trans [] ys zs h k = refl
  lex_trans (x ∷ xs) [] zs h k = cc
  lex_trans (x ∷ xs) (y ∷ ys) [] h k = cc
  lex_trans (x ∷ xs) (y ∷ ys) (z ∷ zs) h k = ground (
    arith,
    o.eqb_iff x y,
    o.eqb_iff y z,
    o.eqb_iff x z,
    o.le_trans x y z,
    o.le_antisym x y,
    o.le_antisym y z,
    lex_trans xs ys zs,
  )

  instance abbrev pub list_order : Order (List A)
  list_order = record {
    eqb = list_eqb;
    eqb_iff = list_eqb_iff;
    le = lex_le;
    le_total = lex_total;
    le_antisym = lex_antisym;
    le_trans = lex_trans;
  }
