-- ===== src/Osc.antt =====
-- pkg/webhook/operatingsystemconfig: what the webhook puts into an OperatingSystemConfig.
pub mod Files
pub mod Filters
pub mod Rsyslog
pub mod Audit
pub mod Ensurer
pub mod Expected
