-- ===== src/Base/Int.antt =====
-- Python's `int`, and the reading of one from a text.
use Prim.Native.Nat.{ℕ, zero, suc, ◌+◌, ◌-◌, ◌*◌}
use mathlib.Core.Bool.{Bool, true, false, ◌&&◌, ◌||◌}
use mathlib.Core.Option
use mathlib.Core.Option.{Option, none, some}
use mathlib.Core.List.{[], ◌∷◌}
use arca_storage.Base.Tests.{ltb, leb, nat_eqb, if◌then◌else◌}
use arca_storage.Base.Texts.{Text, is_digit, decimal, strip}

-- `negsuc n` is -(n + 1).
pub data ℤ : Type 0 where
  pos : ℕ → ℤ
  negsuc : ℕ → ℤ

abbrev pub negate : ℕ → ℤ
negate zero = pos 0
negate (suc n) = negsuc n

-- `z < n`, for a literal `n` that is not negative
abbrev pub int_ltb : ℤ → ℕ → Bool
int_ltb (pos m) n = ltb m n
int_ltb (negsuc m) n = true

-- `z > n`, for a literal `n` that is not negative
abbrev pub int_gtb : ℤ → ℕ → Bool
int_gtb (pos m) n = ltb n m
int_gtb (negsuc m) n = false

-- Digits with single underscores between them; the flag says that a digit came just before.
unfoldable pub int_digits : ℕ → Bool → Text → Option ℕ
int_digits acc after [] = if after then some acc else none
int_digits acc after (c ∷ t) =
    let rest = int_digits (if is_digit c then acc * 10 + (c - 48) else acc) (is_digit c) t in
    if is_digit c || (nat_eqb c b'_' && after) then rest else none

unfoldable pub signed : Text → Option ℤ
signed [] = none
signed (c ∷ t) =
    if nat_eqb c b'-'
    then Option.map negate (int_digits 0 false t)
    else if nat_eqb c b'+'
    then Option.map pos (int_digits 0 false t)
    else Option.map pos (int_digits 0 false (c ∷ t))

-- `str(z)`
abbrev pub int_text : ℤ → Text
int_text (pos n) = decimal n
int_text (negsuc n) = b'-' ∷ decimal (n + 1)

abbrev pub is_hex : ℕ → Bool
is_hex c = is_digit c || (leb b'a' c && leb c b'f') || (leb b'A' c && leb c b'F')

abbrev pub hex_value : ℕ → ℕ
hex_value c = if is_digit c then c - b'0' else if leb b'a' c then c - 87 else c - 55

-- Hexadecimal digits with single underscores between them.
unfoldable pub hex_digits : ℕ → Bool → Text → Option ℕ
hex_digits acc after [] = if after then some acc else none
hex_digits acc after (c ∷ t) =
    let rest = hex_digits (if is_hex c then acc * 16 + hex_value c else acc) (is_hex c) t in
    if is_hex c || (nat_eqb c b'_' && after) then rest else none

abbrev after_prefix : Text → Option ℕ
after_prefix [] = none
after_prefix (c ∷ t) = if nat_eqb c b'_' then hex_digits 0 false t else hex_digits 0 false (c ∷ t)

-- The digits may follow "0x".
abbrev prefixed : Text → Option ℕ
prefixed (c ∷ d ∷ t) =
    if nat_eqb c b'0' && (nat_eqb d b'x' || nat_eqb d b'X')
    then after_prefix t
    else hex_digits 0 false (c ∷ d ∷ t)
prefixed t = hex_digits 0 false t

abbrev signed_hex : Text → Option ℤ
signed_hex [] = none
signed_hex (c ∷ t) =
    if nat_eqb c b'-'
    then Option.map negate (prefixed t)
    else if nat_eqb c b'+'
    then Option.map pos (prefixed t)
    else Option.map pos (prefixed (c ∷ t))

-- `int(t, 16)`
unfoldable pub parse_hex : Text → Option ℤ
unfolding hex_digits strip
parse_hex t = signed_hex (strip t)

-- `int(t)`; `none` stands for its `ValueError`
unfoldable pub parse_int : Text → Option ℤ
unfolding int_digits signed strip
parse_int t = signed (strip t)
