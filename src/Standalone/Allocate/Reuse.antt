-- ===== src/Standalone/Allocate/Reuse.antt =====
-- An allocation is a valid interface, and an SVM that was created with it keeps its address.
use arca_storage.Base.{
  ℕ, ◌^◌, ◌≤◌, ◌<◌, ◌≡◌, ◌≢◌, ◌⊎◌, inl, inr, refl, Bool, true, false, Option, none, some, List, [],
  ◌∷◌, ◌++◌, Text, ℤ, pos, contains, nat_order, holds_below, holds_below-entry, decimal, parse_int,
  nat_eqb, Bool-cases, is_free, arith,
}
use arca_storage.Ipv4.{address_text}
use arca_storage.Ipv4.RoundTrip.{
  parse_address-address_text, parse_interface-cidr, split-cidr, address_text-free,
}
use arca_storage.Results.{ok}
use arca_storage.Validators.{validate_ip_cidr}
use arca_storage.Standalone.{Pool}
use arca_storage.Standalone.Pools.Valid.{IsValidPool}
use arca_storage.Standalone.Used.{
  SvmInfo, vlan_number, is_vlan, vip_address, held_address, used_among, get_used_ips_in_vlan,
  cons_held,
}
use arca_storage.Standalone.Slots.{find_free_slot_in_pool}
use arca_storage.Standalone.Slots.Search.{find_free_slot-free}
use arca_storage.Standalone.Allocate.{cidr_text}

abbrev int_is : ℕ → Option ℤ → Bool
int_is n none = false
int_is n (some (ℤ.pos m)) = nat_eqb n m
int_is n (some (ℤ.negsuc m)) = false

abbrev int_reads : ℕ → Bool
int_reads n = int_is n (parse_int (decimal n))

int_table : holds_below int_reads 33 ≡ true
unfolding holds_below parse_int decimal
int_table = refl

read_int : (n : ℕ) (o : Option ℤ) → int_is n o ≡ true → o ≡ some (pos n)
read_int n none h = cc
read_int n (some (ℤ.pos m)) h = ground arith
read_int n (some (ℤ.negsuc m)) h = cc

int_lem : (p : ℕ) → p ≤ 32 → parse_int (decimal p) ≡ some (pos p)
int_lem p h = read_int p _ (holds_below-entry int_reads 33 p (omega arith) int_table)

-- The address and prefix that an allocation writes pass the check of `create_svm`, which gives back
-- the text of the address and the prefix.
pub validate_ip_cidr-cidr_text :
    (a p : ℕ) → a < 2 ^ 32 → p ≤ 32 → validate_ip_cidr (cidr_text a p) ≡ ok (address_text a, p)
unfolding validate_ip_cidr
validate_ip_cidr-cidr_text a p ha hp =
    rw (split-cidr a p ha hp, int_lem p hp, parse_address-address_text a ha) (ground arith)

-- The SVM is in this VLAN, and its virtual address is this one: a bare address, or an interface.
abbrev Holds : ℕ → ℕ → SvmInfo → Type 0
Holds vlan a svm = (is_vlan vlan (vlan_number svm.vlan_id) ≡ true) × (held_address svm ≡ some a)

-- Some SVM of the list holds the address.
abbrev SomeHolds : ℕ → ℕ → List SvmInfo → Type 0
SomeHolds vlan a [] = ⊥
SomeHolds vlan a (svm ∷ svms) = Holds vlan a svm ⊎ SomeHolds vlan a svms

contains-cons_held :
    (a : ℕ) (o : Option ℕ) (used : List ℕ)
    → contains a used ≡ true
    → contains a (cons_held o used) ≡ true
contains-cons_held a none used h = h
contains-cons_held a (some b) used h = ground arith

used_among-holds :
    (vlan a : ℕ) (svms : List SvmInfo)
    → SomeHolds vlan a svms
    → contains a (used_among vlan svms) ≡ true
unfolding used_among
used_among-holds vlan a [] h = absurd h
used_among-holds vlan a (svm ∷ svms) (inl h) = rw (h.0, h.1) (ground arith)
used_among-holds vlan a (svm ∷ svms) (inr h) =
    elim (Bool-cases (is_vlan vlan (vlan_number svm.vlan_id))) [
      | inl e ↦ rw e (
          contains-cons_held a (held_address svm) (used_among vlan svms)
            (used_among-holds vlan a svms h))
      | inr e ↦ rw e (used_among-holds vlan a svms h)
    ]

-- Two SVMs of one VLAN get different addresses: while the backend lists an SVM of the pool's VLAN
-- that holds an address, no search of the pool finds that address.
pub find_free_slot-no_reuse :
    (randint : ℕ → ℕ → ℕ) (pool : Pool) (attempt : ℕ) (svms : List SvmInfo) (held a : ℕ)
    → IsValidPool pool
    → SomeHolds pool.vlan_id held svms
    → find_free_slot_in_pool randint pool attempt (some svms) ≡ some a
    → a ≢ held
unfolding get_used_ips_in_vlan
find_free_slot-no_reuse randint pool attempt svms held a valid h found same = cc (
  (find_free_slot-free randint pool attempt (some svms) a valid found).4,
  used_among-holds pool.vlan_id held svms h,
  same,
)

contains-free : (t : Text) → is_free b'/' t ≡ true → contains b'/' t ≡ false
contains-free [] h = refl
contains-free (c ∷ t) h = ground (arith, contains-free t)

contains-slash : (t rest : Text) → contains b'/' (t ++ b'/' ∷ rest) ≡ true
contains-slash [] rest = refl
contains-slash (c ∷ t) rest = ground (arith, contains-slash t rest)

-- An SVM whose virtual address is the text of an address, bare or with a prefix, holds it.
pub vip_address-written :
    (a p : ℕ)
    → a < 2 ^ 32
    → p ≤ 32
    → (vip_address (address_text a) ≡ some a) × (vip_address (cidr_text a p) ≡ some a)
unfolding vip_address
vip_address-written a p ha hp = (
  rw (contains-free (address_text a) (address_text-free a ha)) (parse_address-address_text a ha),
  rw (contains-slash (address_text a) (decimal p), parse_interface-cidr a p ha hp) refl,
)
