-- ===== src/Manila/Neutron.antt =====
-- The network allocator that makes a Neutron port for each SVM: its state, and the calls of
-- Neutron's client.
pub mod Config
pub mod Ports
pub mod Duplicates
pub mod Tests
use arca_storage.Base.{ℕ, Bool, Option, List, Text}
use arca_storage.Results.{Result}

pub record FixedIp : Type 0 where
  pub ip_address : Text
  pub subnet_id : Text

-- What the allocator reads of a port.
pub record Port : Type 0 where
  pub id : Text
  pub network_id : Text
  pub created_at : Option Text
  pub fixed_ips : List FixedIp

-- What it reads of a network, and of a subnet.
pub record NeutronNetwork : Type 0 where
  pub network_type : Option Text
  pub segmentation_id : Option ℕ
  pub subnets : List Text

pub record Subnet : Type 0 where
  pub id : Text
  pub ip_version : Option ℕ
  pub gateway_ip : Option Text
  pub cidr : Text

-- The body of `create_port`, less what is the same in each.
pub record PortBody : Type 0 where
  pub name : Text
  pub network_id : Text
  pub subnet_id : Text
  pub port_security_enabled : Bool
  pub device_id : Text
  pub vnic_type : Text
  pub tags : Option (List Text)

-- The exceptions of `create_port` that the allocator tells apart.
pub data PortError : Type 0 where
  ks_unauthorized unauthorized ks_forbidden forbidden bad_request not_found conflict : PortError
  service_unavailable connection_failed unexpected : PortError

-- The client, with the allocator's own `device_owner` in the listing; what a call other than
-- `create_port` raises is not told apart.
pub record NeutronApi (W : Type 0) : Type 0 where
  pub list_ports : Text → W → Option (List Port) × W
  pub create_port : PortBody → W → Result PortError Port × W
  pub delete_port : Text → W → Option (Unit {0}) × W
  pub show_network : Text → W → Option NeutronNetwork × W
  pub show_subnet : Text → W → Option Subnet × W
  pub list_extensions : W → Option (List Text) × W

-- An entry of `_networks`.
pub record CachedNetwork : Type 0 where
  pub network_id : Text
  pub vlan_id : ℕ
  pub subnet_id : Text
  pub gateway : Text
  pub cidr : Text
  pub cidr_prefix : Text

-- The options that the allocator reads.
pub record NeutronConfig : Type 0 where
  pub net_ids : Option (List Text)
  pub port_security : Bool
  pub vnic_type : Text

-- The allocator, with what is outside it.
pub record NeutronAllocator (W : Type 0) : Type 0 where
  pub networks : List CachedNetwork
  pub network_counter : ℕ
  pub supports_tags : Bool
  pub world : W

-- The `NetworkAllocation` of a port; a network that is not among the validated ones may have no
-- segmentation id, and a subnet may have no gateway.
pub record PortAllocation : Type 0 where
  pub vlan_id : Option ℕ
  pub ip_cidr : Text
  pub gateway : Option Text
  pub allocation_id : Text
