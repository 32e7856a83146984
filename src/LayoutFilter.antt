-- ===== src/LayoutFilter.antt =====
-- include/turbo_ocr/layout/layout_postfilter.h: the clean-up behind the layout model.
mod Tests
pub mod Postfilter
pub mod FilterLaws
