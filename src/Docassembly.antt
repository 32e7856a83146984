-- ===== src/Docassembly.antt =====
-- src/docassembly/: what is done to recognized text, to tables over pages and to headings.
mod Tests
pub mod RepetitionGuard
pub mod Repeats
pub mod RepetitionLaws
pub mod Suffixes
pub mod TableMerge
pub mod TitleLevel
