-- ===== src/Base/Splits.antt =====
-- `split` and `split_once` after a separator has been written, and checks over small numbers.
use Prim.Native.Nat.{ℕ, zero, suc, ◌<◌}
use mathlib.Core.Path.{◌≡◌, refl}
use mathlib.Core.Bool.{Bool, true, ◌&&◌, not}
use mathlib.Core.Option.{some}
use mathlib.Core.List.{[], ◌∷◌, ◌++◌}
use native.Mathlib.Omega.{arith}
use arca_storage.Base.Tests.{nat_eqb}
use arca_storage.Base.Lists.{all}
use arca_storage.Base.Texts.{Text, is_space, split, split_once, split_words, starts_with, has_text}

-- The separator does not occur.
abbrev pub is_free : ℕ → Text → Bool
is_free sep t = all (λ c. not (nat_eqb c sep)) t

pub is_free-append :
    (sep : ℕ) (s t : Text)
    → is_free sep s ≡ true
    → is_free sep t ≡ true
    → is_free sep (s ++ t) ≡ true
is_free-append sep [] t h k = k
is_free-append sep (c ∷ s) t h k = ground (arith, is_free-append sep s t)

pub split-free : (sep : ℕ) (t : Text) → is_free sep t ≡ true → split sep t ≡ t ∷ []
unfolding split
split-free sep [] h = refl
split-free sep (c ∷ t) h = ground (arith, split-free sep t)

pub split-append :
    (sep : ℕ) (t rest : Text)
    → is_free sep t ≡ true
    → split sep (t ++ sep ∷ rest) ≡ t ∷ split sep rest
unfolding split
split-append sep [] rest h = ground arith
split-append sep (c ∷ t) rest h = ground (arith, split-append sep t rest)

pub split_once-append :
    (sep : ℕ) (t rest : Text)
    → is_free sep t ≡ true
    → split_once sep (t ++ sep ∷ rest) ≡ some (t, rest)
unfolding split_once
split_once-append sep [] rest h = ground arith
split_once-append sep (c ∷ t) rest h = ground (arith, split_once-append sep t rest)

pub starts_with-append : (p t : Text) → starts_with p (p ++ t) ≡ true
unfolding starts_with
starts_with-append [] t = refl
starts_with-append (c ∷ p) t = ground (arith, starts_with-append p t)

pub split_words-append :
    (t : Text) (c : ℕ) (rest : Text)
    → all (λ d. not (is_space d)) t ≡ true
    → is_space c ≡ true
    → split_words (t ++ c ∷ rest) ≡ t ∷ split_words rest
unfolding split_words
split_words-append [] c rest h k = rw k refl
split_words-append (d ∷ t) c rest h k = ground (arith, split_words-append t c rest)

pub split_words-solid : (t : Text) → all (λ d. not (is_space d)) t ≡ true → split_words t ≡ t ∷ []
unfolding split_words
split_words-solid [] h = refl
split_words-solid (d ∷ t) h = ground (arith, split_words-solid t)

unfoldable pub holds_below : (ℕ → Bool) → ℕ → Bool
holds_below test zero = true
holds_below test (suc bound) = test bound && holds_below test bound

-- A table that is checked by computation gives each of its entries.
pub holds_below-entry :
    (test : ℕ → Bool) (bound i : ℕ) → i < bound → holds_below test bound ≡ true → test i ≡ true
unfolding holds_below
holds_below-entry test zero i below table = absurd (omega arith)
holds_below-entry test (suc bound) i below table = ground (arith, holds_below-entry test bound i)

pub has_text-append : (s p t : Text) → has_text p (s ++ (p ++ t)) ≡ true
unfolding has_text
has_text-append [] [] [] = refl
has_text-append [] [] (d ∷ t) = refl
has_text-append [] (c ∷ p) t = rw (starts_with-append (c ∷ p) t) refl
has_text-append (d ∷ s) p t = ground (arith, has_text-append s p t)
