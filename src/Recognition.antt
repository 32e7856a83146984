-- ===== src/Recognition.antt =====
-- Text recognition behind the model: src/recognition/ctc_decode.cpp.
mod Tests
pub mod Ctc
pub mod CtcLaws
