-- ===== src/Serialization.antt =====
-- The JSON of a response: include/turbo_ocr/common/serialization/serialization_primitives.h.
mod Tests
pub mod Escape
pub mod JsonString
pub mod EscapeLaws
