-- ===== src/Admission.antt =====
-- pkg/admission/validator: the validation of a Shoot before it is stored.
pub mod Contents
pub mod Shoot
