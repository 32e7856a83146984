-- ===== src/Validation.antt =====
-- Request validation, include/turbo_ocr/validation.
mod Tests
pub mod Check
pub mod Params
pub mod Options
pub mod Gate
pub mod PixelDims
pub mod PixelLaws
pub mod LenientScan
pub mod ParamsLaws
pub mod GateLaws
pub mod OptionSteps
pub mod OptionsLaws
