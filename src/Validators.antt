-- ===== src/Validators.antt =====
-- cli/lib/validators.py: the checks of names, VLAN IDs and addresses, and the inference of a gateway.
-- The `ipaddress` module that they call is in Ipv4.
pub mod Names
pub mod Gateway
mod Tests
use arca_storage.Base.{
  ℕ, zero, suc, ◌+◌, ◌-◌, ◌≡◌, Bool, true, false, ◌&&◌, ◌||◌, Option, none, some, List, [], ◌∷◌,
  Text, ℤ, pos, negsuc, length, is_empty, is_alnum, split, parse_int, int_ltb, int_gtb, leb, ltb,
  nat_eqb, if◌then◌else◌,
}
use arca_storage.Ipv4.{Interface, block, parse_address, address_text, network_of, parse_interface}
use arca_storage.Results.{
  ValueFault, name_empty, name_length, name_chars, vlan_range, cidr_format, ipv4_format,
  gateway_cidr, gateway_prefix, gateway_none, value_error, Checked, ok, err, ◌>>=◌, ◌>>◌, raise_if,
  or_raise,
}

-- [a-zA-Z0-9._-]
abbrev pub is_name_char : ℕ → Bool
is_name_char c = is_alnum c || nat_eqb c b'.' || nat_eqb c b'_' || nat_eqb c b'-'

-- `[a-zA-Z0-9._-]*$`: in Python a `$` also matches before a newline at the end.
unfoldable pub matches_tail : Text → Bool
matches_tail [] = true
matches_tail (c ∷ t) = if is_name_char c then matches_tail t else nat_eqb c 10 && is_empty t

-- `re.match(r'^[a-zA-Z0-9][a-zA-Z0-9._-]*$', name)`
unfoldable pub matches_name : Text → Bool
unfolding matches_tail
matches_name [] = false
matches_name (c ∷ t) = is_alnum c && matches_tail t

abbrev fail : ValueFault → Checked (Unit {0})
fail f = err (value_error f)

unfoldable pub validate_name : Text → Checked (Unit {0})
unfolding matches_name
validate_name name =
    if is_empty name
    then fail name_empty
    else if ltb (length name) 1 || ltb 64 (length name)
    then fail name_length
    else if matches_name name
    then ok tt
    else fail name_chars

unfoldable pub validate_vlan : ℤ → Checked (Unit {0})
validate_vlan vlan_id = if int_ltb vlan_id 1 || int_gtb vlan_id 4094 then fail vlan_range else ok tt

-- The value of a prefix that has been checked against 0 and 32.
abbrev prefix_value : ℤ → ℕ
prefix_value (pos n) = n
prefix_value (negsuc n) = 0

-- Every exception inside the `try` is raised again as a `ValueError` about the CIDR.
cidr_parts : List Text → Checked (Text × ℕ)
cidr_parts (ip_addr ∷ prefix_text ∷ []) = do
  prefix ← or_raise (parse_int prefix_text) (value_error cidr_format)
  or_raise (parse_address ip_addr) (value_error cidr_format)
  raise_if (int_ltb prefix 0 || int_gtb prefix 32) (value_error cidr_format)
  ok (ip_addr, prefix_value prefix)
cidr_parts _ = err (value_error cidr_format)

unfoldable pub validate_ip_cidr : Text → Checked (Text × ℕ)
unfolding cidr_parts
validate_ip_cidr cidr = cidr_parts (split b'/' cidr)

unfoldable pub validate_ipv4 : Text → Checked (Unit {0})
validate_ipv4 ip = or_raise (parse_address ip) (value_error ipv4_format) >> ok tt

-- `for host in hosts: if host != ip: return host`, for `count` hosts from `host` on
unfoldable pub first_other : ℕ → ℕ → ℕ → Option ℕ
first_other ip host zero = none
first_other ip host (suc count) =
    let rest = first_other ip (host + 1) count in if nat_eqb host ip then rest else some host

-- The gateway as a number. The hosts of a network shorter than /31 lie strictly between its
-- network address and its broadcast address.
unfoldable pub gateway_of : Interface → Checked ℕ
unfolding first_other
gateway_of iface =
    if leb 31 iface.prefixlen
    then err (value_error gateway_prefix)
    else or_raise
        (first_other iface.ip (network_of iface.ip iface.prefixlen + 1) (block iface.prefixlen - 2))
        (value_error gateway_none)

unfoldable pub infer_gateway_from_ip_cidr : Text → Checked Text
unfolding gateway_of
infer_gateway_from_ip_cidr cidr = do
  iface ← or_raise (parse_interface cidr) (value_error gateway_cidr)
  host ← gateway_of iface
  ok (address_text host)
