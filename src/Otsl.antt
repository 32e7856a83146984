-- ===== src/Otsl.antt =====
-- The OTSL to HTML converter, src/table/vlm/otsl_html.cpp.
mod Tests
pub mod Tokens
pub mod Rows
pub mod Html
pub mod Escape
pub mod Splitting
pub mod Shape
pub mod Spans
