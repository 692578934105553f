-- ===== src/Manila/Neutron/Config.antt =====
-- `validate_config`: the networks of the configuration are looked up and kept.
use arca_storage.Base.{
  ℕ, Bool, false, not, ◌&&◌, Option, none, some, List, [], ◌∷◌, ◌++◌, map, Text, codes, strip,
  split, is_empty, non_empty, contains, nat_eqb, list_eqb, nat_order, list_order, get_elem?,
  if◌then◌else◌,
}
use arca_storage.Results.{Result, ok, err}
use arca_storage.Manila.{ApiError, value_error}
use arca_storage.Manila.Neutron.{Subnet, NeutronApi, CachedNetwork, NeutronConfig, NeutronAllocator}

-- `_get_network_ids_from_config`
unfoldable pub get_network_ids_from_config : NeutronConfig → List Text
get_network_ids_from_config cfg = elim cfg.net_ids [
  | none ↦ []
  | some ids ↦ non_empty (map strip ids)
]

-- `cidr.split("/")[1]`; `none` stands for its `IndexError`
abbrev pub cidr_prefix_of : Text → Option Text
cidr_prefix_of cidr = get_elem? (split b'/' cidr) 1

-- `if not x` of an optional text, and of an optional number
abbrev pub text_or_none : Option Text → Option Text
text_or_none none = none
text_or_none (some t) = if is_empty t then none else some t

abbrev pub nonzero : Option ℕ → Option ℕ
nonzero none = none
nonzero (some n) = if nat_eqb n 0 then none else some n

abbrev pub is_ipv4 : Option ℕ → Bool
is_ipv4 none = false
is_ipv4 (some v) = nat_eqb v 4

abbrev pub has_text_in : Option Text → Bool
has_text_in none = false
has_text_in (some t) = not (is_empty t)

abbrev pub is_vlan : Option Text → Bool
is_vlan none = false
is_vlan (some t) = list_eqb t (codes "vlan")

module _ {W : Type 0} (api : NeutronApi W) where
  -- The first IPv4 subnet with a gateway: `err` where a call raised, `ok none` where there is none.
  unfoldable pub find_subnet : List Text → W → Result (Unit {0}) (Option Subnet) × W
  find_subnet [] w = (ok none, w)
  find_subnet (id ∷ ids) w =
      let (r, w') = api.show_subnet id w in
      elim r [
        | none ↦ (err tt, w')
        | some subnet ↦
            if is_ipv4 subnet.ip_version && has_text_in subnet.gateway_ip
            then (ok (some subnet), w')
            else find_subnet ids w'
      ]

  -- The subnet that is taken: that one, or the first of all.
  unfoldable pub choose_subnet : List Text → W → Option Subnet × W
  unfolding find_subnet
  choose_subnet [] w = (none, w)
  choose_subnet (id ∷ ids) w =
      let (r, w') = find_subnet (id ∷ ids) w in
      elim r [
        | err _ ↦ (none, w')
        | ok found ↦ elim found [ some subnet ↦ (some subnet, w') | none ↦ api.show_subnet id w' ]
      ]

  -- The entry of a network; `none` where the subnet has no gateway, or no prefix in its CIDR.
  unfoldable pub cached_network : Text → ℕ → Subnet → Option CachedNetwork
  cached_network net_id vlan_id subnet = elim (text_or_none subnet.gateway_ip) [
    | none ↦ none
    | some gateway ↦ elim (cidr_prefix_of subnet.cidr) [
      | none ↦ none
      | some prefix ↦ some (record {
        network_id = net_id;
        vlan_id = vlan_id;
        subnet_id = subnet.id;
        gateway = gateway;
        cidr = subnet.cidr;
        cidr_prefix = prefix;
      })
    ]
  ]

  -- `_validate_and_cache_network`: whatever fails in it is a `ValueError`.
  unfoldable pub validate_and_cache_network : Text → W → Result ApiError CachedNetwork × W
  unfolding choose_subnet cached_network
  validate_and_cache_network net_id w =
      let (r, w1) = api.show_network net_id w in
      elim r [
        | none ↦ (err value_error, w1)
        | some network ↦
            if not (is_vlan network.network_type)
            then (err value_error, w1)
            else elim (nonzero network.segmentation_id) [
              | none ↦ (err value_error, w1)
              | some vlan_id ↦
                  let (chosen, w2) = choose_subnet network.subnets w1 in
                  elim chosen [
                    | none ↦ (err value_error, w2)
                    | some subnet ↦ elim (cached_network net_id vlan_id subnet) [
                      | none ↦ (err value_error, w2)
                      | some entry ↦ (ok entry, w2)
                    ]
                  ]
            ]
      ]

  -- The loop over the networks: what is found is kept until one fails.
  unfoldable pub validate_networks :
      List Text → NeutronAllocator W → Result ApiError (Unit {0}) × NeutronAllocator W
  unfolding validate_and_cache_network
  validate_networks [] s = (ok tt, s)
  validate_networks (net_id ∷ ids) s =
      let (r, w) = validate_and_cache_network net_id s.world in
      elim r [
        | err e ↦ (err e, record s { world = w })
        | ok entry ↦
            validate_networks ids (record s { world = w; networks = s.networks ++ entry ∷ [] })
      ]

  -- `any(ext["alias"] == "tag" ...)`, false where the call raises
  unfoldable pub check_tags : NeutronAllocator W → NeutronAllocator W
  check_tags s =
      let (r, w) = api.list_extensions s.world in
      elim r [
        | none ↦ record s { world = w; supports_tags = false }
        | some aliases ↦ record s { world = w; supports_tags = contains (codes "tag") aliases }
      ]

  -- `validate_config`; `connect` is `_create_neutron_client`.
  unfoldable pub validate_config :
      (W → Result ApiError (Unit {0}) × W)
      → NeutronConfig
      → NeutronAllocator W
      → Result ApiError (Unit {0}) × NeutronAllocator W
  unfolding get_network_ids_from_config validate_networks check_tags
  validate_config connect cfg s =
      let fresh : NeutronAllocator W = record {
        networks = [];
        network_counter = 0;
        supports_tags = false;
        world = s.world;
      } in
      elim (get_network_ids_from_config cfg) [
        | [] ↦ (err value_error, fresh)
        | id ∷ ids ↦
            let (c, w) = connect s.world in
            elim c [
              | err e ↦ (err e, record fresh { world = w })
              | ok _ ↦
                  let (r, s') = validate_networks (id ∷ ids) (record fresh { world = w }) in
                  elim r [ err e ↦ (err e, s') | ok _ ↦ (ok tt, check_tags s') ]
            ]
      ]
