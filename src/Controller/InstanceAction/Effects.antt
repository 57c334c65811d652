-- ===== src/Controller/InstanceAction/Effects.antt =====
-- The calls that `handle_instance_change` makes: the gauge of broker Pods follows them, and none is
-- made that the plan does not ask for.
pub mod Gauge
pub mod Follows
pub mod Justify
pub mod Works
pub mod Performed
