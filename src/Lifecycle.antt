-- ===== src/Lifecycle.antt =====
-- pkg/controller/lifecycle and pkg/component: what the controller puts into the seed and removes.
pub mod Kube
pub mod Monitoring
pub mod Cleaner
pub mod Actuator
