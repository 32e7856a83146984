-- ===== src/TableHtml.antt =====
-- src/table/html_reconstruct.cpp: the markup of a table that goes into a document.
mod Tests
pub mod Texts
pub mod Sanitize
pub mod Reconstruct
pub mod SanitizeLaws
pub mod CellLaws
