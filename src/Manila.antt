-- ===== src/Manila.antt =====
-- openstack/manila: the share driver, over the clients and the network allocator that it calls.
pub mod Svms
pub mod Access
pub mod Neutron
pub mod Shares
pub mod Client
pub mod Served
use arca_storage.Base.{ℕ, Option, Text}

-- The exceptions of exceptions.py that the driver tells apart; `other` is any other exception.
pub data ApiError : Type 0 where
  svm_not_found svm_exists share_not_found share_exists snapshot_not_found : ApiError
  network_conflict pool_exhausted network_config value_error : ApiError
  neutron_authentication neutron_error port_creation_failed : ApiError
  other : Text → ApiError

-- What the driver raises: an exception of a client as it is, or one of Manila's own.
pub data DriverError : Type 0 where
  raised : ApiError → DriverError
  share_backend manila_exception invalid_share_access share_resource_not_found : DriverError
  access_rule_error not_implemented : DriverError
