-- ===== src/Controller.antt =====
-- The controller, controller/src/util.
pub mod PodAction
pub mod InstanceAction
pub mod NodeWatcher
pub mod PodServices
pub mod PodWatcher
