-- ===== src/Xanlib.antt =====
-- xanlib: the data structures that the tracer keeps its records in.
pub mod Bitset
pub mod LinkedList
pub mod Stack
pub mod HashTable
pub mod Queue
pub mod Pipe
