-- ===== src/Formula.antt =====
-- src/formula/ppformulanet/: from the token ids of the formula model to text.
mod Tests
pub mod ByteLevel
pub mod Tokenizer
pub mod Utf8
pub mod Utf8Laws
pub mod ByteLevelLaws
pub mod VocabBounds
pub mod VocabLaws
pub mod DecodeLaws
