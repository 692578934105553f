-- ===== src/Ipv4.antt =====
-- The standard library's `ipaddress`, as far as the program uses it: IPv4 addresses as numbers
-- below 2 ^ 32, their texts, interfaces `address/prefix`, and the networks around them.
pub mod RoundTrip
use mathlib.Core.Option
use arca_storage.Base.{
  ℕ, zero, suc, ◌+◌, ◌-◌, ◌*◌, ◌/◌, ◌%◌, ◌^◌, Bool, false, ◌||◌, not, Option, none, some, List, [],
  ◌∷◌, ◌++◌, Text, length, all, is_empty, is_digit, digits_value, split, decimal, leb, ltb, nat_eqb,
  if◌then◌else◌,
}

abbrev leads_with_zero : Text → Bool
leads_with_zero [] = false
leads_with_zero (c ∷ []) = false
leads_with_zero (c ∷ d ∷ t) = nat_eqb c b'0'

-- `_parse_octet`
unfoldable pub parse_octet : Text → Option ℕ
parse_octet t =
    if is_empty t || not (all is_digit t) || ltb 3 (length t) || leads_with_zero t
    then none
    else Option.bind (digits_value 0 t) (λ n. if ltb 255 n then none else some n)

abbrev pub four_octets : Option ℕ → Option ℕ → Option ℕ → Option ℕ → Option ℕ
four_octets (some a) (some b) (some c) (some d) = some (a * 2 ^ 24 + b * 2 ^ 16 + c * 2 ^ 8 + d)
four_octets _ _ _ _ = none

unfoldable pub of_octets : List Text → Option ℕ
of_octets (a ∷ b ∷ c ∷ d ∷ []) =
    four_octets (parse_octet a) (parse_octet b) (parse_octet c) (parse_octet d)
of_octets _ = none

-- `IPv4Address(t)`; `none` stands for its `AddressValueError`
unfoldable pub parse_address : Text → Option ℕ
parse_address t = of_octets (split b'.' t)

abbrev pub dotted : Text → Text → Text → Text → Text
dotted a b c d = a ++ b'.' ∷ (b ++ b'.' ∷ (c ++ b'.' ∷ d))

-- `str(address)`
unfoldable pub address_text : ℕ → Text
address_text n =
    dotted (decimal (n / 2 ^ 24)) (decimal (n / 2 ^ 16 % 256)) (decimal (n / 2 ^ 8 % 256))
      (decimal (n % 256))

-- The number of addresses of a network with this prefix length.
abbrev pub block : ℕ → ℕ
block p = 2 ^ (32 - p)

-- `interface.network.network_address`
unfoldable pub network_of : ℕ → ℕ → ℕ
network_of ip p = ip / block p * block p

-- `network.broadcast_address`
unfoldable pub broadcast_of : ℕ → ℕ → ℕ
broadcast_of net p = net + block p - 1

-- `address in network`
unfoldable pub in_network : ℕ → ℕ → ℕ → Bool
unfolding network_of
in_network ip net p = nat_eqb (network_of ip p) net

-- The prefix length at or above `32 - fuel` whose netmask is the given number.
mask_prefix : ℕ → ℕ → Option ℕ
mask_prefix zero mask = if nat_eqb mask (2 ^ 32 - 1) then some 32 else none
mask_prefix (suc fuel) mask =
    let rest = mask_prefix fuel mask in
    if nat_eqb mask (2 ^ 32 - 2 ^ suc fuel) then some (32 - suc fuel) else rest

-- A netmask, or else a host mask, whose bits are those of the netmask flipped.
mask_or_hostmask : ℕ → Option ℕ
unfolding mask_prefix
mask_or_hostmask n = elim (mask_prefix 32 n) [
  | some p ↦ some p
  | none ↦ mask_prefix 32 (2 ^ 32 - 1 - n)
]

-- `_make_netmask`
unfoldable pub parse_prefix : Text → Option ℕ
unfolding mask_or_hostmask parse_address digits_value
parse_prefix t =
    let as_mask = Option.bind (parse_address t) mask_or_hostmask in
    if is_empty t || not (all is_digit t)
    then as_mask
    else elim (digits_value 0 t) [ some n ↦ if leb n 32 then some n else as_mask | none ↦ none ]

pub record Interface : Type 0 where
  pub ip : ℕ
  pub prefixlen : ℕ

unfoldable pub interface_of : Option ℕ → Option ℕ → Option Interface
interface_of (some ip) (some p) = some (record { ip = ip; prefixlen = p })
interface_of _ _ = none

unfoldable pub interface_parts : List Text → Option Interface
unfolding interface_of
interface_parts (a ∷ []) = interface_of (parse_address a) (some 32)
interface_parts (a ∷ p ∷ []) = interface_of (parse_address a) (parse_prefix p)
interface_parts _ = none

-- `IPv4Interface(t)`, and `ip_network(t, strict=False)` with the host bits kept
unfoldable pub parse_interface : Text → Option Interface
unfolding interface_parts
parse_interface t = interface_parts (split b'/' t)
