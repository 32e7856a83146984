-- ===== src/ReadingOrder.antt =====
-- The order in which the regions of a page are read: include/turbo_ocr/layout/order/reading_order.h,
-- src/layout/order/xy_cut.cpp and `assign_reading_order` of src/layout/order/reading_order.cpp.
mod Tests
pub mod Counting
pub mod Projection
pub mod Segments
pub mod Profile
pub mod Histogram
pub mod HistogramLaws
pub mod XyCut
pub mod CutLaws
pub mod Assign
pub mod AssignLaws
pub mod Priority
pub mod CutComplete
pub mod CutPerm
