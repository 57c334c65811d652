-- ===== src/Agent/DevicePlugin.antt =====
-- agent/src/util/device_plugin_service.rs: the device plugin of an Instance, which lends the slots of
-- the Instance to the containers of its node. Sockets and channels are left out: a message on the
-- `list_and_watch` channel is an entry of the trace.
pub mod Allocation
pub mod Devices
pub mod Adverts
pub mod Creation
pub mod Membership
pub mod Entries
pub mod Slots
pub mod Claims
pub mod Responses
pub mod Naming
pub mod Watch
pub mod Building
pub mod Race
use akri.Base.{
  ℕ, zero, suc, ◌+◌, String, Bool, true, false, Option, none, some, List, [], ◌∷◌, Result, ok, err,
  M, ◌==◌, if◌then◌else◌,
}
use akri.Base.HashMap.{HashMap, get, insert}
use akri.Kube.Types.{ℤ, Time, Instance, KubeAkriInstance, Configuration, ProtocolHandler}
use akri.Kube.Api.{Trace, Done, KubeInterface, find_instance, update_instance}

pub data ConnectivityStatus : Type 0 where
  online : ConnectivityStatus
  offline : Time → ConnectivityStatus

-- The channel of an Instance goes by the Instance's name.
pub record InstanceInfo : Type 0 where
  pub connectivity_status : ConnectivityStatus

abbrev pub InstanceMap : Type 0
InstanceMap = HashMap InstanceInfo

pub record DevicePluginService : Type 0 where
  pub instance_name : String
  pub config : Configuration
  pub config_name : String
  pub config_uid : String
  pub config_namespace : String
  pub shared : Bool
  pub node_name : String
  pub instance_properties : HashMap String
