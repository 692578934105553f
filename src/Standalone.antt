-- ===== src/Standalone.antt =====
-- openstack/manila/network_allocators: the allocation record of base.py, and the allocator of
-- standalone.py over static pools of addresses.
pub mod Pools
pub mod Used
pub mod Slots
pub mod Allocate
mod Tests
use arca_storage.Base.{ℕ, Option, Text}

-- base.py
pub record NetworkAllocation : Type 0 where
  pub vlan_id : ℕ
  pub ip_cidr : Text
  pub gateway : Text
  pub allocation_id : Option Text

-- A parsed pool; the addresses are numbers below 2 ^ 32, the gateway is a text.
pub record Pool : Type 0 where
  pub network : ℕ
  pub prefixlen : ℕ
  pub vlan_id : ℕ
  pub gateway : Text
  pub num_hosts : ℕ
  pub first_host : ℕ
  pub last_host : ℕ

-- The checks of one pool's configuration.
pub data PoolFault : Type 0 where
  invalid_format invalid_vlan vlan_out_of_range range_required invalid_cidr : PoolFault
  invalid_range invalid_range_address start_outside end_outside range_order : PoolFault
  no_hosts invalid_gateway gateway_in_range network_in_range broadcast_in_range : PoolFault

-- The network errors of exceptions.py that the allocator raises.
pub data NetworkError : Type 0 where
  pools_required no_valid_pools : NetworkError
  invalid_pool : ℕ → PoolFault → NetworkError
  pool_exhausted : NetworkError
  network_conflict : NetworkError
