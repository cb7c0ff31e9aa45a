-- ===== src/Skiplist.antt =====
-- crates/zerokv/src/skiplist.rs: the ordered map of one shard, as a caller sees it that no other
-- thread interrupts. Keys, nodes and links in a heap, and the map's operations on them.
pub mod Keys
pub mod Heap
pub mod Chains
pub mod Entries
pub mod Search
pub mod Layout
pub mod Valid
pub mod Ops
pub mod Maps
pub mod Reach
pub mod AsMap
mod Tests
