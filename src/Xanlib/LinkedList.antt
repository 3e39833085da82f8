-- ===== src/Xanlib/LinkedList.antt =====
-- xanlib/src/xanlist.c: doubly linked lists.
pub mod Memory
pub mod Items
pub mod Shape
pub mod Find
pub mod Allocate
pub mod Push
pub mod Queries
pub mod Insert
pub mod Move
pub mod Remove
pub mod Whole
pub mod Pop
pub mod Snoc
pub mod Append
