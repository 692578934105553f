-- ===== src/Manila/Access/Tests.antt =====
-- A rule of a share in a backend that has an export of another client.
use arca_storage.Base.{
  ◌≡◌, refl, Option, none, some, [], ◌∷◌, Text, codes, list_eqb, nat_order, list_order,
  list_eqb_iff, if◌then◌else◌, split, strip, lstrip_by, rstrip_by, digits_value, decimal,
  decimal_digits, arith,
}
use mathlib.Core.Option
use arca_storage.Results.{ok}
use arca_storage.Ipv4.{
  parse_interface, interface_parts, interface_of, parse_prefix, parse_address, of_octets,
  parse_octet, network_of, address_text,
}
use arca_storage.Manila.Access.{
  Rule, ExportInfo, ExportApi, normalize_access_to, ip_network, client_key, reconcile_access_rules,
}
use arca_storage.Manila.Access.Loops.{Backend}
use arca_storage.Manila.Access.Reconcile.{Lists, IsValid, reconcile_access_rules-wanted}

abbrev no_ipv6 : Text → Option Text
no_ipv6 t = none

abbrev old_client : Text
old_client = codes "10.9.9.9/32"

abbrev old_entry : ExportInfo
old_entry = record { client = some old_client; access = some (codes "ro") }

-- The level of each client's entry.
abbrev Table : Type 0
Table = Text → Option Text

abbrev old_table : Table
old_table c = if list_eqb old_client c then some (codes "ro") else none

abbrev table_api : ExportApi Table
table_api = record {
  list_exports = λ svm volume w. (ok (old_entry ∷ []), w);
  create_export = λ svm volume k l squash w. (ok tt, λ c. if list_eqb k c then some l else w c);
  delete_export = λ svm volume k w. (ok tt, λ c. if list_eqb k c then none else w c);
}

abbrev table_backend : Backend table_api (codes "svm") (codes "share-1")
table_backend = record {
  entries = λ w. w;
  stored = λ l. l;
  stored_again = λ w k a e. refl;
  deleted = λ w k c. refl;
  created = λ w k l c free. refl;
}

abbrev new_rule : Rule
new_rule = record {
  access_type = some (codes "ip");
  access_to = codes " 10.0.0.5/24";
  access_level = none;
}

new_key : normalize_access_to no_ipv6 new_rule.access_to ≡ some (codes "10.0.0.0/24")
unfolding normalize_access_to ip_network parse_interface interface_parts interface_of parse_prefix
    parse_address of_octets parse_octet network_of address_text split strip lstrip_by rstrip_by
    digits_value decimal decimal_digits Option.bind
new_key = refl

old_key : client_key no_ipv6 old_client ≡ old_client
unfolding client_key normalize_access_to ip_network parse_interface interface_parts interface_of
    parse_prefix parse_address of_octets parse_octet network_of address_text split strip lstrip_by
    rstrip_by digits_value decimal decimal_digits Option.bind
old_key = refl

rule-IsValid : IsValid no_ipv6 new_rule
unfolding list_eqb
rule-IsValid = (refl, refl, λ e. grind (arith, new_key, e))

old_listed : Lists no_ipv6 old_table (old_entry ∷ [])
unfolding list_eqb
old_listed = (
  ((old_client, codes "ro", refl, refl, old_key, refl, refl), tt),
  λ k a e. grind (arith, list_eqb_iff, e),
)

reconcile_access_rules-wanted_example :
    let r =
      reconcile_access_rules table_api
        (codes "svm")
        (codes "share-1")
        no_ipv6
        (new_rule ∷ [])
        old_table in
    (r.0 ≡ ok tt) × (r.1 (codes "10.0.0.0/24") ≡ some (codes "rw"))
unfolding list_eqb normalize_access_to parse_interface split strip parse_address of_octets
    parse_octet Option.bind digits_value parse_prefix address_text decimal network_of
reconcile_access_rules-wanted_example =
    reconcile_access_rules-wanted table_backend no_ipv6 (new_rule ∷ []) (old_entry ∷ []) old_table
      old_table (codes "10.0.0.0/24") (rule-IsValid, tt) refl old_listed
