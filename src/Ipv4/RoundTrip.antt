-- ===== src/Ipv4/RoundTrip.antt =====
-- The text of an address is read back as the address.
use mathlib.Core.Option
use arca_storage.Base.{
  digits_value, ℕ, ◌+◌, ◌*◌, ◌/◌, ◌%◌, ◌^◌, ◌≤◌, ◌<◌, ◌≡◌, refl, Bool, true, false, ◌&&◌, Option,
  some, none, [], ◌∷◌, ◌++◌, Text, decimal, split, nat_eqb, arith, ap, ◌∙◌, &&-eq-true, is_free,
  is_free-append, split-free, split-append, holds_below, holds_below-entry,
}
use arca_storage.Ipv4.{
  dotted, parse_octet, of_octets, parse_address, address_text, parse_prefix, parse_interface,
}

abbrev is_value : ℕ → Option ℕ → Bool
is_value n none = false
is_value n (some m) = nat_eqb n m

abbrev octet_reads : ℕ → Bool
octet_reads n =
    is_value n (parse_octet (decimal n)) && (is_free b'.' (decimal n) && is_free b'/' (decimal n))

octet_table : holds_below octet_reads 256 ≡ true
unfolding holds_below parse_octet decimal digits_value Option.bind
octet_table = refl

is_value-eq : (n : ℕ) (o : Option ℕ) → is_value n o ≡ true → o ≡ some n
is_value-eq n none h = cc
is_value-eq n (some m) h = ground arith

octet_lem :
    (n : ℕ)
    → n < 256
    → (parse_octet (decimal n) ≡ some n)
      × (is_free b'.' (decimal n) ≡ true)
      × (is_free b'/' (decimal n) ≡ true)
octet_lem n h =
    let both = &&-eq-true _ _ (holds_below-entry octet_reads 256 n h octet_table) in
    let free = &&-eq-true _ _ both.1 in (is_value-eq n _ both.0, free.0, free.1)

split_four :
    (sep : ℕ) (a b c d : Text)
    → is_free sep a ≡ true
    → is_free sep b ≡ true
    → is_free sep c ≡ true
    → is_free sep d ≡ true
    → split sep (a ++ sep ∷ (b ++ sep ∷ (c ++ sep ∷ d))) ≡ a ∷ b ∷ c ∷ d ∷ []
split_four sep a b c d ha hb hc hd =
    rw
      (
        split-append sep a _ ha,
        split-append sep b _ hb,
        split-append sep c _ hc,
        split-free sep d hd,
      )
      refl

parse_four :
    (a b c d : ℕ)
    → a < 256
    → b < 256
    → c < 256
    → d < 256
    → parse_address (dotted (decimal a) (decimal b) (decimal c) (decimal d))
      ≡ some (a * 2 ^ 24 + b * 2 ^ 16 + c * 2 ^ 8 + d)
unfolding parse_address of_octets
parse_four a b c d ha hb hc hd =
    let oa = octet_lem a ha in
    let ob = octet_lem b hb in
    let oc = octet_lem c hc in
    let od = octet_lem d hd in
    rw
      (
        split_four b'.' (decimal a) (decimal b) (decimal c) (decimal d) oa.1 ob.1 oc.1 od.1,
        oa.0,
        ob.0,
        oc.0,
        od.0,
      )
      refl

-- The text of an address below 2 ^ 32 is read back as that address.
pub parse_address-address_text : (n : ℕ) → n < 2 ^ 32 → parse_address (address_text n) ≡ some n
unfolding address_text
parse_address-address_text n h =
    parse_four (n / 2 ^ 24) (n / 2 ^ 16 % 256) (n / 2 ^ 8 % 256) (n % 256) (omega arith)
      (omega arith) (omega arith) (omega arith)
    ∙ ap some (omega arith)

dotted-free :
    (a b c d : Text)
    → is_free b'/' a ≡ true
    → is_free b'/' b ≡ true
    → is_free b'/' c ≡ true
    → is_free b'/' d ≡ true
    → is_free b'/' (dotted a b c d) ≡ true
dotted-free a b c d ha hb hc hd =
    is_free-append b'/' a _ ha (is_free-append b'/' b _ hb (is_free-append b'/' c _ hc hd))

-- The text of an address holds no slash.
pub address_text-free : (n : ℕ) → n < 2 ^ 32 → is_free b'/' (address_text n) ≡ true
unfolding address_text
address_text-free n h =
    dotted-free (decimal (n / 2 ^ 24)) (decimal (n / 2 ^ 16 % 256)) (decimal (n / 2 ^ 8 % 256))
      (decimal (n % 256)) (octet_lem (n / 2 ^ 24) (omega arith)).2
      (octet_lem (n / 2 ^ 16 % 256) (omega arith)).2 (octet_lem (n / 2 ^ 8 % 256) (omega arith)).2
      (octet_lem (n % 256) (omega arith)).2

abbrev prefix_reads : ℕ → Bool
prefix_reads n = is_value n (parse_prefix (decimal n)) && is_free b'/' (decimal n)

prefix_table : holds_below prefix_reads 33 ≡ true
unfolding holds_below parse_prefix decimal digits_value Option.bind
prefix_table = refl

prefix_lem :
    (p : ℕ) → p ≤ 32 → (parse_prefix (decimal p) ≡ some p) × (is_free b'/' (decimal p) ≡ true)
prefix_lem p h =
    let both = &&-eq-true _ _ (holds_below-entry prefix_reads 33 p (omega arith) prefix_table) in
    (is_value-eq p _ both.0, both.1)

-- "address/prefix" splits into its two parts.
pub split-cidr :
    (n p : ℕ)
    → n < 2 ^ 32
    → p ≤ 32
    → split b'/' (address_text n ++ b'/' ∷ decimal p) ≡ address_text n ∷ decimal p ∷ []
split-cidr n p hn hp =
    rw
      (
        split-append b'/' (address_text n) (decimal p) (address_text-free n hn),
        split-free b'/' (decimal p) (prefix_lem p hp).1,
      )
      refl

-- "address/prefix" is read back as the interface.
pub parse_interface-cidr :
    (n p : ℕ)
    → n < 2 ^ 32
    → p ≤ 32
    → parse_interface (address_text n ++ b'/' ∷ decimal p) ≡ some (record { ip = n; prefixlen = p })
unfolding parse_interface
parse_interface-cidr n p hn hp =
    rw (split-cidr n p hn hp, parse_address-address_text n hn, (prefix_lem p hp).0) refl
