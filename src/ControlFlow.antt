-- ===== src/ControlFlow.antt =====
-- libcam/src/ControlFlowCompressor.{h,cpp}: the compression of control flow traces.
pub mod Pattern
pub mod Compressor
mod Tests
