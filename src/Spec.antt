-- ===== src/Spec.antt =====
-- pkg/spec: templates and validation.
pub mod Texts
pub mod Template
pub mod Render
pub mod Context
pub mod Validator
