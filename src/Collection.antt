-- ===== src/Collection.antt =====
-- The package gcollection: the linked deque of gcollection/queue.go on an explicit heap.
pub mod Heap
pub mod Deque
pub mod Api
pub mod Bounded
pub mod Calls
pub mod Waiting
pub mod Iterator
mod Tests
