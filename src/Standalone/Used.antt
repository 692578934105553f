-- ===== src/Standalone/Used.antt =====
-- `_get_used_ips_in_vlan`: the addresses that the backend's SVMs hold in a VLAN.
use mathlib.Core.Option
use arca_storage.Base.{
  ℕ, Bool, false, Option, none, some, List, [], ◌∷◌, Text, ℤ, pos, negsuc, is_empty, contains,
  nat_order, parse_int, nat_eqb, if◌then◌else◌,
}
use arca_storage.Ipv4.{parse_address, parse_interface}

-- The `vlan_id` of an answer, as JSON gives it. `other` is a value that `int` refuses.
pub data JsonVlan : Type 0 where
  absent other : JsonVlan
  number : ℤ → JsonVlan
  numeral : Text → JsonVlan

-- What the allocator reads of an SVM. A field that is missing is `none`.
pub record SvmInfo : Type 0 where
  pub vlan_id : JsonVlan
  pub vip : Option Text
  pub ip_cidr : Option Text

abbrev pub vlan_number : JsonVlan → Option ℤ
vlan_number absent = none
vlan_number other = none
vlan_number (number z) = some z
vlan_number (numeral t) = parse_int t

abbrev pub is_vlan : ℕ → Option ℤ → Bool
is_vlan vlan none = false
is_vlan vlan (some (pos n)) = nat_eqb n vlan
is_vlan vlan (some (negsuc n)) = false

-- A text that is present and not empty.
abbrev pub truthy : Option Text → Option Text
truthy none = none
truthy (some t) = if is_empty t then none else some t

-- The address of a `vip`, bare or with a prefix.
unfoldable pub vip_address : Text → Option ℕ
vip_address vip =
    if contains b'/' vip then Option.map (λ i. i.ip) (parse_interface vip) else parse_address vip

-- The `vip` first, and the `ip_cidr` only where there is no `vip`.
unfoldable pub held_address : SvmInfo → Option ℕ
unfolding vip_address
held_address svm = elim (truthy svm.vip) [
  | some vip ↦ vip_address vip
  | none ↦ elim (truthy svm.ip_cidr) [
    | some cidr ↦ Option.map (λ i. i.ip) (parse_interface cidr)
    | none ↦ none
  ]
]

abbrev pub cons_held : Option ℕ → List ℕ → List ℕ
cons_held none used = used
cons_held (some a) used = a ∷ used

unfoldable pub used_among : ℕ → List SvmInfo → List ℕ
used_among vlan [] = []
used_among vlan (svm ∷ svms) =
    let rest = used_among vlan svms in
    if is_vlan vlan (vlan_number svm.vlan_id) then cons_held (held_address svm) rest else rest

-- `none` stands for a query that raises: the allocator then goes on with no address in use.
unfoldable pub get_used_ips_in_vlan : ℕ → Option (List SvmInfo) → List ℕ
unfolding used_among
get_used_ips_in_vlan vlan none = []
get_used_ips_in_vlan vlan (some svms) = used_among vlan svms
