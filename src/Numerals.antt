-- ===== src/Numerals.antt =====
-- Numbers printed and read again, and texts without spaces.
use native.Mathlib.Nat.{mod-lt}
use arca_storage.Base.{
  ℕ, zero, suc, ◌+◌, ◌/◌, ◌%◌, ◌<◌, ◌≡◌, refl, Bool, true, false, some, [], ◌∷◌, ◌++◌, Text, All, ℤ,
  pos, negsuc, is_digit, is_space, is_empty, ltb, decimal, decimal_digits, int_digits, signed,
  parse_int, int_text, strip, lstrip_by, rstrip_by, inl, inr, Bool-cases, arith,
}

abbrev pub IsDigit : ℕ → Type 0
IsDigit c = is_digit c ≡ true

-- A character that is not white space.
abbrev pub IsSolid : ℕ → Type 0
IsSolid c = is_space c ≡ false

digit-IsSolid : (c : ℕ) → IsDigit c → IsSolid c
digit-IsSolid c h = ground arith

digits-All : (fuel n : ℕ) (acc : Text) → All IsDigit acc → All IsDigit (decimal_digits fuel n acc)
unfolding decimal_digits
digits-All zero n acc h = h
digits-All (suc fuel) n acc h = ground (arith, digits-All fuel (n / 10) ((48 + n % 10) ∷ acc))

-- Reading the digits of a number from the left.
int_digits-decimal :
    (fuel n : ℕ) (after : Bool) (acc : Text)
    → n < fuel
    → int_digits 0 after (decimal_digits fuel n acc) ≡ int_digits n true acc
unfolding decimal_digits int_digits
int_digits-decimal zero n after acc h = absurd (omega arith)
int_digits-decimal (suc fuel) n after acc h =
    grind (arith, int_digits-decimal fuel (n / 10) after ((48 + n % 10) ∷ acc))

head-IsDigit :
    (fuel n d : ℕ) (acc : Text)
    → IsDigit d
    → (c : ℕ) × (t : Text) × (decimal_digits fuel n (d ∷ acc) ≡ c ∷ t) × IsDigit c
unfolding decimal_digits
head-IsDigit zero n d acc h = (d, acc, refl, h)
head-IsDigit (suc fuel) n d acc h = elim (Bool-cases (ltb n 10)) [
  | inl small ↦ (48 + n, d ∷ acc, rw small refl, ground arith)
  | inr large ↦
      let (c, t, e, hc) =
        head-IsDigit fuel (n / 10) (48 + n % 10) (d ∷ acc) (ground (arith, mod-lt n {m = 10})) in
      (c, t, rw large e, hc)
]

-- A printed number starts with a digit.
pub decimal-head : (n : ℕ) → (c : ℕ) × (t : Text) × (decimal n ≡ c ∷ t) × IsDigit c
unfolding decimal decimal_digits
decimal-head n = elim (Bool-cases (ltb n 10)) [
  | inl small ↦ (48 + n, [], rw small refl, ground arith)
  | inr large ↦
      let (c, t, e, hc) =
        head-IsDigit n (n / 10) (48 + n % 10) [] (ground (arith, mod-lt n {m = 10})) in
      (c, t, rw large e, hc)
]

IsSolid-of_digits : (t : Text) → All IsDigit t → All IsSolid t
IsSolid-of_digits [] h = tt
IsSolid-of_digits (c ∷ t) h = (digit-IsSolid c h.0, IsSolid-of_digits t h.1)

pub decimal-IsSolid : (n : ℕ) → All IsSolid (decimal n)
unfolding decimal
decimal-IsSolid n = IsSolid-of_digits _ (digits-All (suc n) n [] tt)

pub int_text-IsSolid : (z : ℤ) → All IsSolid (int_text z)
int_text-IsSolid (pos n) = decimal-IsSolid n
int_text-IsSolid (negsuc n) = (refl, decimal-IsSolid (n + 1))

pub rstrip-solid : (t : Text) → All IsSolid t → rstrip_by is_space t ≡ t
unfolding rstrip_by
rstrip-solid [] h = refl
rstrip-solid (c ∷ []) h = rw h.0 refl
rstrip-solid (c ∷ d ∷ t) h = rw (rstrip-solid (d ∷ t) h.1) refl

-- A text keeps its end behind any other text.
pub rstrip-append :
    (s t : Text)
    → rstrip_by is_space t ≡ t
    → is_empty t ≡ false
    → rstrip_by is_space (s ++ t) ≡ s ++ t
unfolding rstrip_by
rstrip-append [] t h e = h
rstrip-append (c ∷ []) [] h e = cc
rstrip-append (c ∷ []) (d ∷ t) h e = rw h refl
rstrip-append (c ∷ d ∷ s) t h e = rw (rstrip-append (d ∷ s) t h e) refl

-- One white space at the end goes.
pub rstrip-snoc :
    (s : Text) (c : ℕ) → is_space c ≡ true → rstrip_by is_space (s ++ c ∷ []) ≡ rstrip_by is_space s
unfolding rstrip_by
rstrip-snoc [] c h = rw h refl
rstrip-snoc (d ∷ s) c h = rw (rstrip-snoc s c h) refl

pub strip-solid : (t : Text) → All IsSolid t → strip t ≡ t
unfolding strip lstrip_by
strip-solid [] h = refl
strip-solid (c ∷ t) h = rw h.0 (rstrip-solid (c ∷ t) h)

-- A printed integer is read as itself.
pub parse_int-int_text : (z : ℤ) → parse_int (int_text z) ≡ some z
unfolding parse_int signed decimal
parse_int-int_text (pos n) =
    let (c, t, e, hc) = decimal-head n in
    rw (strip-solid (decimal n) (decimal-IsSolid n), e)
      (ground (arith, int_digits-decimal (suc n) n false []))
parse_int-int_text (negsuc n) =
    rw (strip-solid (int_text (negsuc n)) (int_text-IsSolid (negsuc n)))
      (ground (arith, int_digits-decimal (suc (n + 1)) (n + 1) false []))
