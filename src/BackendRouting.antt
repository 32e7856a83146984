-- ===== src/BackendRouting.antt =====
-- src/backend_routing/routing_config.cpp: which backend serves a modality.
mod Tests
pub mod Table
pub mod Spec
pub mod Env
pub mod Parse
pub mod Load
pub mod Resolve
pub mod TableLaws
pub mod Soundness
pub mod EnvLaws
pub mod LoadLaws
pub mod ResolveLaws
pub mod ParseLaws
