-- ===== src/Standalone/Pools/Valid.antt =====
-- What a parsed pool guarantees.
use native.Mathlib.Nat.{mul-le-mul_right}
use arca_storage.Base.{
  ◌/◌, length, Bool, true, false, ◌||◌, ℤ, pos, negsuc, int_ltb, int_gtb, parse_int, split, strip,
  split_once, some, ◌⊎◌, inl, inr, ◌≢◌, Option-cases, ℕ, ◌+◌, ◌≤◌, ◌<◌, ◌≡◌, refl, List, [], ◌∷◌,
  All, Text, arith,
}
use arca_storage.Ipv4.{
  Interface, parse_interface, block, parse_address, network_of, broadcast_of, in_network,
}
use arca_storage.Results.{Result, ok, err, or_raise, raise_if, ok-injective, >>=-steps}
use arca_storage.Standalone.{
  PoolFault, invalid_cidr, invalid_range, invalid_range_address, invalid_vlan, vlan_out_of_range,
  range_required, Pool, NetworkError,
}
use arca_storage.Standalone.Pools.{
  vlan_value, cons_pool, some_pools, infer_pool_gateway, check_edges, check_pool, parse_ranges,
  pool_parts, parse_pool, parse_from, validate_config,
}

-- The addresses from the first host to the last are hosts of the pool's network, none of them is
-- its gateway, and in a normal subnet none is its network address or its broadcast address.
pub record IsValidPool (p : Pool) : Type 0 where
  pub vlan_low : 1 ≤ p.vlan_id
  pub vlan_high : p.vlan_id ≤ 4094
  pub ordered : p.first_host ≤ p.last_host
  pub counted : p.first_host + p.num_hosts ≡ p.last_host + 1
  pub first_inside : network_of p.first_host p.prefixlen ≡ p.network
  pub last_inside : network_of p.last_host p.prefixlen ≡ p.network
  pub gateway_ip : ℕ
  pub gateway_inferred : p.gateway ≡ infer_pool_gateway p.network p.prefixlen
  pub gateway_text : parse_address p.gateway ≡ some gateway_ip
  pub gateway_outside : (gateway_ip < p.first_host) ⊎ (p.last_host < gateway_ip)
  pub first_edge : p.prefixlen < 31 → p.first_host ≢ p.network
  pub last_edge : p.prefixlen < 31 → p.last_host ≢ broadcast_of p.network p.prefixlen

check_pool-IsValid :
    (vlan_id : ℕ) (cidr : Interface) (start_ip end_ip : ℕ) (p : Pool)
    → 1 ≤ vlan_id
    → vlan_id ≤ 4094
    → check_pool vlan_id cidr start_ip end_ip ≡ ok p
    → IsValidPool p
unfolding check_pool check_edges in_network
check_pool-IsValid vlan_id cidr start_ip end_ip p lo hi h =
    elim (Option-cases
      (parse_address (infer_pool_gateway (network_of cidr.ip cidr.prefixlen) cidr.prefixlen))) [
        | inl e ↦ ground arith
        | inr (g, e) ↦ record {
          vlan_low = ground arith;
          vlan_high = ground arith;
          ordered = ground arith;
          counted = ground arith;
          first_inside = ground arith;
          last_inside = ground arith;
          gateway_ip = g;
          gateway_inferred = ground arith;
          gateway_text = ground arith;
          gateway_outside = ground arith;
          first_edge = ground arith;
          last_edge = ground arith;
        }
      ]

parse_ranges-IsValid :
    (vlan_id : ℕ) (t : Text) (p : Pool)
    → 1 ≤ vlan_id
    → vlan_id ≤ 4094
    → parse_ranges vlan_id t ≡ ok p
    → IsValidPool p
unfolding parse_ranges
parse_ranges-IsValid vlan_id t p lo hi h =
    let (halves, e0, h0) = >>=-steps (or_raise (split_once b'|' t) range_required) _ h in
    let (cidr, e1, h1) =
      >>=-steps (or_raise (parse_interface (strip halves.0)) invalid_cidr) _ h0 in
    let (ends, e2, h2) =
      >>=-steps (or_raise (split_once b'-' (strip halves.1)) invalid_range) _ h1 in
    let (a, e3, h3) =
      >>=-steps (or_raise (parse_address (strip ends.0)) invalid_range_address) _ h2 in
    let (b, e4, h4) =
      >>=-steps (or_raise (parse_address (strip ends.1)) invalid_range_address) _ h3 in
    check_pool-IsValid vlan_id cidr a b p lo hi h4

in_vlan_range :
    (z : ℤ) → (int_ltb z 1 || int_gtb z 4094) ≡ false → (1 ≤ vlan_value z) × (vlan_value z ≤ 4094)
in_vlan_range (pos n) h = ground arith
in_vlan_range (negsuc n) h = cc

raise_if-ok : (b : Bool) (e : PoolFault) {u : Unit {0}} → raise_if b e ≡ ok u → b ≡ false
raise_if-ok true e h = cc
raise_if-ok false e h = refl

pool_parts-IsValid : (parts : List Text) (p : Pool) → pool_parts parts ≡ ok p → IsValidPool p
unfolding pool_parts
pool_parts-IsValid (a ∷ b ∷ []) p h =
    let (z, e0, h0) = >>=-steps (or_raise (parse_int (strip b)) invalid_vlan) _ h in
    let (u, e1, h1) = >>=-steps (raise_if (int_ltb z 1 || int_gtb z 4094) vlan_out_of_range) _ h0 in
    let range = in_vlan_range z (raise_if-ok _ _ e1) in
    parse_ranges-IsValid (vlan_value z) (strip a) p range.0 range.1 h1
pool_parts-IsValid [] p h = cc
pool_parts-IsValid (a ∷ []) p h = cc
pool_parts-IsValid (a ∷ b ∷ c ∷ r) p h = cc

-- A pool that is parsed is valid.
pub parse_pool-IsValid : (config : Text) (p : Pool) → parse_pool config ≡ ok p → IsValidPool p
parse_pool-IsValid config p h = pool_parts-IsValid (split b':' config) p (unfold parse_pool in h)

cons_pool-IsValid :
    (i : ℕ) (r : Result PoolFault Pool) (rest : Result NetworkError (List Pool)) (ps : List Pool)
    → ((p : Pool) → r ≡ ok p → IsValidPool p)
    → ((qs : List Pool) → rest ≡ ok qs → All IsValidPool qs)
    → cons_pool i r rest ≡ ok ps
    → All IsValidPool ps
unfolding cons_pool
cons_pool-IsValid i (err f) rest ps hp hr h = cc
cons_pool-IsValid i (ok p) (err e) ps hp hr h = cc
cons_pool-IsValid i (ok p) (ok qs) ps hp hr h = rw (← ok-injective h) (hp p refl, hr qs refl)

parse_from-IsValid :
    (i : ℕ) (configs : List Text) (ps : List Pool)
    → parse_from i configs ≡ ok ps
    → All IsValidPool ps
unfolding parse_from
parse_from-IsValid i [] ps h = rw (← ok-injective h) tt
parse_from-IsValid i (c ∷ cs) ps h =
    cons_pool-IsValid i (parse_pool c) (parse_from (i + 1) cs) ps (parse_pool-IsValid c)
      (parse_from-IsValid (i + 1) cs) h

some_pools-IsValid :
    (ps qs : List Pool)
    → All IsValidPool ps
    → some_pools ps ≡ ok qs
    → All IsValidPool qs × (1 ≤ length qs)
some_pools-IsValid [] qs v h = cc
some_pools-IsValid (p ∷ ps) qs v h = rw (← ok-injective h) (v, omega arith)

-- A configuration that is accepted gives at least one pool, and every pool is valid.
pub validate_config-IsValid :
    (configs : List Text) (ps : List Pool)
    → validate_config configs ≡ ok ps
    → All IsValidPool ps × (1 ≤ length ps)
unfolding validate_config
validate_config-IsValid [] ps h = cc
validate_config-IsValid (c ∷ cs) ps h =
    let (qs, e, k) = >>=-steps (parse_from 0 (c ∷ cs)) some_pools h in
    some_pools-IsValid qs ps (parse_from-IsValid 0 (c ∷ cs) qs e) k

div-le : (a b k : ℕ) → a ≤ b → a / k ≤ b / k
div-le a b k h = grind arith

-- What lies between two addresses of a network lies in the network.
pub network_between :
    (lo a hi p : ℕ) {net : ℕ}
    → lo ≤ a
    → a ≤ hi
    → network_of lo p ≡ net
    → network_of hi p ≡ net
    → network_of a p ≡ net
unfolding network_of
network_between lo a hi p l h el eh =
    let below = mul-le-mul_right (block p) (div-le lo a (block p) l) in
    let above = mul-le-mul_right (block p) (div-le a hi (block p) h) in omega arith
