-- ===== src/Docassembly/TableMerge.antt =====
-- src/docassembly/table_merge.cpp: a table that goes on across a page boundary is put together.
pub mod Rows
pub mod Match
pub mod Pages
pub mod Blocks
pub mod Merging
pub mod Resolving
mod Tests
