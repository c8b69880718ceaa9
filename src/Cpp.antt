-- ===== src/Cpp.antt =====
-- The C++ version of the allocators, in the headers of include/heapforge/. Free list and block pool
-- are there line by line what they are in C; the modules below are about the parts that are not.
pub mod Dict
pub mod DebugHeap
pub mod GuardHeap
