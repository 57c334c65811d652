-- ===== src/Agent.antt =====
-- The agent, agent/src/util.
pub mod DevicePlugin
pub mod SlotReconciliation
pub mod Connectivity
pub mod Udev
pub mod Opcua
pub mod Onvif
pub mod Configurations
pub mod Handlers
