-- ===== src/Manila/Neutron/Ports.antt =====
-- `allocate` and `deallocate`: the ports of an SVM, and what is done about duplicates.
use arca_storage.Base.{
  ℕ, ◌+◌, ◌%◌, Bool, false, not, ◌&&◌, Option, none, some, List, [], ◌∷◌, ◌++◌, find?, Text, codes,
  is_empty, lex_le, list_eqb, nat_order, list_order, length, ltb, get_elem?, if◌then◌else◌,
}
use arca_storage.Results.{Result, ok, err}
use arca_storage.Manila.{
  ApiError, value_error, network_conflict, neutron_authentication, neutron_error,
  port_creation_failed, other,
}
use arca_storage.Manila.Neutron.{
  FixedIp, Port, PortBody, NeutronApi, CachedNetwork, NeutronConfig, NeutronAllocator,
  PortAllocation, PortError, ks_unauthorized, unauthorized, ks_forbidden, forbidden, bad_request,
  not_found, conflict, service_unavailable, connection_failed, unexpected,
}
use arca_storage.Manila.Neutron.Config.{text_or_none, cidr_prefix_of}

-- `newly_created_port_id and p["id"] == newly_created_port_id`
abbrev pub is_new : Option Text → Port → Bool
is_new none p = false
is_new (some id) p = not (is_empty id) && list_eqb p.id id

-- `sort_key`; a pair of a class, one character, and a text is compared as the text that the
-- character heads.
unfoldable pub sort_key : Option Text → Port → Text
sort_key newly_created p = elim (text_or_none p.created_at) [
  | some created_at ↦ b'1' ∷ created_at
  | none ↦ if is_new newly_created p then b'0' ∷ [] else b'2' ∷ p.id
]

-- A port goes before the first whose key is not below its own.
unfoldable pub insert_port : Option Text → Port → List Port → List Port
insert_port newly_created p [] = p ∷ []
insert_port newly_created p (q ∷ qs) =
    let rest = insert_port newly_created p qs in
    if lex_le (sort_key newly_created p) (sort_key newly_created q) then p ∷ q ∷ qs else q ∷ rest

-- `ports.sort(key=sort_key)`, which keeps the order of ports with the same key
unfoldable pub sort_ports : Option Text → List Port → List Port
sort_ports newly_created [] = []
sort_ports newly_created (p ∷ ps) = insert_port newly_created p (sort_ports newly_created ps)

module _ {W : Type 0} (api : NeutronApi W) where
  -- The loop over the duplicates; a failure is only logged.
  unfoldable pub delete_ports : List Port → W → W
  delete_ports [] w = w
  delete_ports (p ∷ ps) w = delete_ports ps (api.delete_port p.id w).1

  -- `_consolidate_duplicate_ports`: the port that is kept.
  unfoldable pub consolidate_duplicate_ports : List Port → Option Text → W → Option Port × W
  unfolding delete_ports
  consolidate_duplicate_ports ports newly_created w = elim (sort_ports newly_created ports) [
    | [] ↦ (none, w)
    | keep ∷ duplicates ↦ (some keep, delete_ports duplicates w)
  ]

  -- `_find_existing_port`; a listing that fails is taken for an empty one.
  unfoldable pub find_existing_port : Text → W → Option Port × W
  unfolding consolidate_duplicate_ports
  find_existing_port device_id w =
      let (r, w') = api.list_ports device_id w in
      elim r [
        | none ↦ (none, w')
        | some ports ↦ elim ports [
          | [] ↦ (none, w')
          | p ∷ [] ↦ (some p, w')
          | p ∷ q ∷ ps ↦ consolidate_duplicate_ports (p ∷ q ∷ ps) none w'
        ]
      ]

  -- `_extract_allocation_from_port` behind its look at the network: the port's own subnet gives
  -- the gateway and the prefix.
  unfoldable pub with_subnet : Port → FixedIp → Option ℕ → W → Result ApiError PortAllocation × W
  with_subnet port fixed_ip vlan_id w =
      let (r, w') = api.show_subnet fixed_ip.subnet_id w in
      elim r [
        | none ↦ (err (other []), w')
        | some subnet ↦ elim (cidr_prefix_of subnet.cidr) [
          | none ↦ (err (other []), w')
          | some prefix ↦ (
            ok (record {
              vlan_id = vlan_id;
              ip_cidr = fixed_ip.ip_address ++ b'/' ∷ prefix;
              gateway = subnet.gateway_ip;
              allocation_id = port.id;
            }),
            w',
          )
        ]
      ]

  -- `_extract_allocation_from_port`; `known` are the validated networks.
  unfoldable pub extract_allocation_from_port :
      List CachedNetwork → Port → Option CachedNetwork → W → Result ApiError PortAllocation × W
  unfolding with_subnet
  extract_allocation_from_port known port network w = elim port.fixed_ips [
    | [] ↦ (err network_conflict, w)
    | fixed_ip ∷ _ ↦ elim network [
      | some n ↦ (
        ok (record {
          vlan_id = some n.vlan_id;
          ip_cidr = fixed_ip.ip_address ++ b'/' ∷ n.cidr_prefix;
          gateway = some n.gateway;
          allocation_id = port.id;
        }),
        w,
      )
      | none ↦ elim (find? (λ n. list_eqb n.network_id port.network_id) known) [
        | some n ↦ with_subnet port fixed_ip (some n.vlan_id) w
        | none ↦
            let (r, w') = api.show_network port.network_id w in
            elim r [
              | none ↦ (err (other []), w')
              | some n ↦ with_subnet port fixed_ip n.segmentation_id w'
            ]
      ]
    ]
  ]

  -- `deallocate`: a failure is only logged.
  unfoldable pub deallocate : Text → W → W
  deallocate allocation_id w =
      if is_empty allocation_id then w else (api.delete_port allocation_id w).1

-- `_select_network_round_robin`; `offset` is what `random.randint` draws for a retry.
unfoldable pub select_network_round_robin :
    {W : Type 0} → ℕ → ℕ → NeutronAllocator W → Option CachedNetwork
select_network_round_robin offset retry_attempt s = elim s.networks [
  | [] ↦ none
  | _ ∷ _ ↦
      let n = length s.networks in
      let start = s.network_counter % n in
      let start' = (if ltb 0 retry_attempt then (start + offset) % n else start) in
      get_elem? s.networks (start' % n)
]

abbrev pub device_id_of : Text → Text
device_id_of svm_name = codes "arca-svm-" ++ svm_name

unfoldable pub port_body :
    {W : Type 0} → NeutronConfig → NeutronAllocator W → CachedNetwork → Text → Text → PortBody
port_body cfg s network project_id svm_name = record {
  name = device_id_of svm_name;
  network_id = network.network_id;
  subnet_id = network.subnet_id;
  port_security_enabled = cfg.port_security;
  device_id = device_id_of svm_name;
  vnic_type = cfg.vnic_type;
  tags =
      (if s.supports_tags
        then some (
            codes "arca-storage"
            ∷ (codes "svm:" ++ svm_name)
            ∷ (codes "project:" ++ project_id)
            ∷ [])
        else none);
}

-- What the exceptions of `create_port` become.
abbrev pub of_port_error : PortError → ApiError
of_port_error ks_unauthorized = neutron_authentication
of_port_error unauthorized = neutron_authentication
of_port_error ks_forbidden = neutron_error
of_port_error forbidden = neutron_error
of_port_error bad_request = port_creation_failed
of_port_error not_found = neutron_error
of_port_error conflict = network_conflict
of_port_error service_unavailable = network_conflict
of_port_error connection_failed = network_conflict
of_port_error unexpected = network_conflict

module _ {W : Type 0} (api : NeutronApi W) where
  -- `allocate` behind `create_port`: duplicates are looked for, and the counter moves on.
  unfoldable pub settle_port :
      Text
      → Port
      → CachedNetwork
      → NeutronAllocator W
      → Result ApiError PortAllocation × NeutronAllocator W
  unfolding consolidate_duplicate_ports extract_allocation_from_port
  settle_port device_id port network s =
      let (r, w1) = api.list_ports device_id s.world in
      elim r [
        | none ↦ (err (other []), record s { world = w1 })
        | some all_ports ↦
            let many = ltb 1 (length all_ports) in
            let (kept, w2) =
              (if many
                then consolidate_duplicate_ports api all_ports (some port.id) w1
                else (some port, w1)) in
            elim kept [
              | none ↦ (err (other []), record s { world = w2 })
              | some p ↦
                  let (a, w3) =
                    extract_allocation_from_port api s.networks p
                      (if many then none else some network) w2 in
                  (a, record s { world = w3; network_counter = s.network_counter + 1 })
            ]
      ]

  -- `allocate`; `offset` is the random offset of a retry.
  unfoldable pub allocate :
      NeutronConfig
      → ℕ
      → Text
      → Text
      → ℕ
      → NeutronAllocator W
      → Result ApiError PortAllocation × NeutronAllocator W
  unfolding find_existing_port extract_allocation_from_port select_network_round_robin settle_port
      port_body
  allocate cfg offset project_id svm_name retry_attempt s =
      let device_id = device_id_of svm_name in
      let (existing, w1) = find_existing_port api device_id s.world in
      elim existing [
        | some port ↦
            let (a, w2) = extract_allocation_from_port api s.networks port none w1 in
            (a, record s { world = w2 })
        | none ↦ elim (select_network_round_robin offset retry_attempt s) [
          | none ↦ (err value_error, record s { world = w1 })
          | some network ↦
              let (made, w2) = api.create_port (port_body cfg s network project_id svm_name) w1 in
              elim made [
                | err e ↦ (err (of_port_error e), record s { world = w2 })
                | ok port ↦ settle_port device_id port network (record s { world = w2 })
              ]
        ]
      ]
