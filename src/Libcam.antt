-- ===== src/Libcam.antt =====
-- libcam/src, less the compression of control flow: the memory traces and the analysis of dependences.
pub mod Machine
pub mod Accesses
pub mod MemoryTracer
pub mod DynamicGcd
pub mod MemSet
pub mod MemoryParser
pub mod Runs
pub mod RoundTrip
pub mod Streamer
pub mod Repetition
pub mod CompressionPattern
pub mod CallTrace
pub mod StaticLoop
pub mod Dependence
mod Tests
