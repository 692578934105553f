-- ===== src/Standalone/Pools.antt =====
-- `_parse_ip_vlan_pools` and `validate_config`.
pub mod Valid
use arca_storage.Base.{
  ℕ, zero, suc, ◌+◌, ◌-◌, ◌≡◌, Bool, true, false, ◌&&◌, ◌||◌, not, Option, none, some, List, [],
  ◌∷◌, Text, ℤ, pos, negsuc, strip, split, split_once, parse_int, int_ltb, int_gtb, leb, ltb,
  nat_eqb, if◌then◌else◌,
}
use arca_storage.Ipv4.{
  Interface, parse_address, address_text, network_of, broadcast_of, in_network, parse_interface,
}
use arca_storage.Results.{Result, ok, err, ◌>>=◌, ◌>>◌, raise_if, or_raise}
use arca_storage.Standalone.{
  Pool, PoolFault, invalid_format, invalid_vlan, vlan_out_of_range, range_required, invalid_cidr,
  invalid_range, invalid_range_address, start_outside, end_outside, range_order, no_hosts,
  invalid_gateway, gateway_in_range, network_in_range, broadcast_in_range, NetworkError,
  pools_required, no_valid_pools, invalid_pool,
}

abbrev vlan_value : ℤ → ℕ
vlan_value (pos n) = n
vlan_value (negsuc n) = 0

unfoldable pub infer_pool_gateway : ℕ → ℕ → Text
infer_pool_gateway net prefixlen =
    if nat_eqb prefixlen 32
    then address_text net
    else if nat_eqb prefixlen 31
    then address_text net
    else address_text (net + 1)

-- The network and broadcast addresses of a normal subnet stay out of the range.
unfoldable pub check_edges : ℕ → ℕ → ℕ → ℕ → Result PoolFault (Unit {0})
check_edges net prefixlen start_ip end_ip =
    if ltb prefixlen 31
    then raise_if (nat_eqb start_ip net) network_in_range
      >> raise_if (nat_eqb end_ip (broadcast_of net prefixlen)) broadcast_in_range
    else ok tt

-- The checks of the parsed numbers, in the order of the source.
unfoldable pub check_pool : ℕ → Interface → ℕ → ℕ → Result PoolFault Pool
check_pool vlan_id cidr start_ip end_ip = do
  let net = network_of cidr.ip cidr.prefixlen
  raise_if (not (in_network start_ip net cidr.prefixlen)) start_outside
  raise_if (not (in_network end_ip net cidr.prefixlen)) end_outside
  raise_if (ltb end_ip start_ip) range_order
  let num_hosts = end_ip - start_ip + 1
  raise_if (leb num_hosts 0) no_hosts
  let gateway = infer_pool_gateway net cidr.prefixlen
  gateway_ip ← or_raise (parse_address gateway) invalid_gateway
  raise_if (leb start_ip gateway_ip && leb gateway_ip end_ip) gateway_in_range
  check_edges net cidr.prefixlen start_ip end_ip
  ok (record {
    network = net;
    prefixlen = cidr.prefixlen;
    vlan_id = vlan_id;
    gateway = gateway;
    num_hosts = num_hosts;
    first_host = start_ip;
    last_host = end_ip;
  })

-- "<ip_cidr>|<start_ip>-<end_ip>", for a VLAN that has been read
unfoldable pub parse_ranges : ℕ → Text → Result PoolFault Pool
parse_ranges vlan_id ip_part = do
  (cidr_text, range_text) ← or_raise (split_once b'|' ip_part) range_required
  cidr ← or_raise (parse_interface (strip cidr_text)) invalid_cidr
  (start_text, end_text) ← or_raise (split_once b'-' (strip range_text)) invalid_range
  start_ip ← or_raise (parse_address (strip start_text)) invalid_range_address
  end_ip ← or_raise (parse_address (strip end_text)) invalid_range_address
  check_pool vlan_id cidr start_ip end_ip

pool_parts : List Text → Result PoolFault Pool
pool_parts (ip_part ∷ vlan_text ∷ []) = do
  vlan_id ← or_raise (parse_int (strip vlan_text)) invalid_vlan
  raise_if (int_ltb vlan_id 1 || int_gtb vlan_id 4094) vlan_out_of_range
  parse_ranges (vlan_value vlan_id) (strip ip_part)
pool_parts _ = err invalid_format

-- One entry of the configuration, "<ip_cidr>|<start_ip>-<end_ip>:<vlan_id>"
unfoldable pub parse_pool : Text → Result PoolFault Pool
unfolding pool_parts
parse_pool config = pool_parts (split b':' config)

cons_pool :
    ℕ → Result PoolFault Pool → Result NetworkError (List Pool) → Result NetworkError (List Pool)
cons_pool i (err f) rest = err (invalid_pool i f)
cons_pool i (ok p) (err e) = err e
cons_pool i (ok p) (ok ps) = ok (p ∷ ps)

-- The loop over the entries; the first invalid entry ends it.
parse_from : ℕ → List Text → Result NetworkError (List Pool)
unfolding cons_pool
parse_from i [] = ok []
parse_from i (config ∷ rest) = cons_pool i (parse_pool config) (parse_from (i + 1) rest)

abbrev some_pools : List Pool → Result NetworkError (List Pool)
some_pools [] = err no_valid_pools
some_pools (p ∷ ps) = ok (p ∷ ps)

unfoldable pub parse_ip_vlan_pools : List Text → Result NetworkError (List Pool)
unfolding parse_from
parse_ip_vlan_pools configs = parse_from 0 configs >>= some_pools

-- Every `ValueError` is raised again as a configuration error.
unfoldable pub validate_config : List Text → Result NetworkError (List Pool)
unfolding parse_ip_vlan_pools
validate_config [] = err pools_required
validate_config (c ∷ cs) = parse_ip_vlan_pools (c ∷ cs)
