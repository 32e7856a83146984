-- ===== src/Docassembly/TitleLevel.antt =====
-- src/docassembly/title_level.cpp: the depth of each heading of a document.
pub mod Symbols
pub mod Heights
pub mod Keywords
pub mod Levels
pub mod LevelLaws
mod Tests
