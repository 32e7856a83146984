-- ===== src/Router.antt =====
-- The routing stage: include/turbo_ocr/router/ and src/router/.
mod Tests
pub mod Types
pub mod Geometry
pub mod Rules
pub mod Route
pub mod TieBreak
pub mod Overlap
pub mod Classify
pub mod ClassifyVectors
pub mod ClassifyLaws
pub mod RouteLaws
pub mod TieLaws
pub mod TieTable
