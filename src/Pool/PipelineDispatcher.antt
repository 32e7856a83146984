-- ===== src/Pool/PipelineDispatcher.antt =====
-- src/pipeline/pipeline_dispatcher.cpp and include/turbo_ocr/pipeline/pool/pipeline_dispatcher.h: a
-- bounded queue of tasks, the workers that each own a pipeline, and their watchdog.
mod Tests
pub mod State
pub mod Worker
pub mod Watch
pub mod Steps
pub mod Undecided
pub mod Ledger
pub mod Books
pub mod Requests
pub mod Sight
pub mod HardKill
