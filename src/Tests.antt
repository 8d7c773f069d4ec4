-- ===== src/Tests.antt =====
-- Tests of the definitions at concrete inputs, and an instance of each result.
mod Data
mod Validation
mod Admission
mod Osc
mod Rsyslog
mod Audit
mod Expected
mod Ensurer
mod Lifecycle
mod V1alpha1
mod Startup
mod Verifier
mod Setup
mod DeepCopy
mod Utils
mod Node
