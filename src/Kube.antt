-- ===== src/Kube.antt =====
-- The interface to the cluster, shared/src.
pub mod Types
pub mod Api
pub mod Pods
pub mod Retry
pub mod Services
pub mod Client
