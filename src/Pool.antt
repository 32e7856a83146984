-- ===== src/Pool.antt =====
-- The thread pool of the HTTP layer, the object pool of the pipelines and their dispatcher.
mod Tests
pub mod WorkPool
pub mod PipelinePool
pub mod PipelineDispatcher
