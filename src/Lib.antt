-- ===== src/Lib.antt =====
-- A verification library for zerokv, a key-value engine built on lock-free structures.
--
-- Parts, and the files that model them:
--
-- Spsc, with its children: crates/zerokv/src/spsc.rs. `Ring` is a record of slots and two cursors
-- that wrap at 2^64; `channel`, `push`, `pop`, `drain` and `drop_slots` (Drop) are the functions of
-- the source. Spsc/Steps runs both ends at once, one load or store a step.
--
-- Ebr, with its children: crates/zerokv/src/ebr.rs. `Domain` holds the epoch, the slots and the three
-- bags; `pin`, `retire`, `try_collect`, `reclaim_bag`, `local_slot` and `drop_guard` are functions on
-- it. Ebr/Protocol is a step relation in which any number of participants, each with one guard at a
-- time, and collections interleave, one load, store, swap or compare-exchange a step, in one total
-- order; a collection frees, keeps and pushes back each record in a step of its own. The structure
-- that the guards protect enters by what it owes them: a reference loaded under a guard is to an
-- allocation that has been in the structure at some time since the guard's slot was stored.
--
-- Arena, with its children: crates/zerokv/src/arena.rs and crates/zerokv/src/zerocopy.rs. Addresses
-- are numbers, Memory holds bytes by address. Arena/Race interleaves the threads of `alloc_raw`;
-- Arena/Kv is `ArenaKv`.
--
-- Log, with its children: crates/zerokv/src/mmap_log.rs. `MappedLog` with its buffer in a Memory and
-- the contents of its file; `open_log`, `append`, `record_at` and `flush`.
--
-- Index, with its children: crates/zerokv/src/shard.rs. `ShardedIndex` routes by `fnv1a` to skip lists,
-- which are an interface of operations (SkipList) and laws (IsMap); Skiplist fills it.
--
-- Skiplist, with its children: crates/zerokv/src/skiplist.rs. Keys are the keys of nodes and their
-- order; Heap the nodes by address, their links with marks, and the CAS of one link; Search the map,
-- `find` and `get`; Ops `insert`, `remove`, the constructors and `drop`. A run may fault, where an
-- access meets no node, or run out of fuel. Valid is when a map is well formed, and AsMap the map
-- as Index uses it, with a generator state for each list. The caller is one that no other thread
-- interrupts; a CAS that fails, and what the code does then, is in the functions all the same.
--
-- Store, with its children: crates/zerokv/src/store.rs. `KvStore` joins Index and Log: `put` logs a
-- frame and inserts.
--
-- Regbuf, with its children: crates/zerokv/src/regbuf.rs. The pool hands out buffers of one slab; the
-- portable backend writes and reads a File, which is an interface of the system's calls with their
-- documented laws.
--
-- Commit, with its children: crates/zerokv/src/group_commit.rs. The writers of `append` and the
-- `batcher_loop` as a step relation over the vectored write of Regbuf; a record's number stands for
-- its completion. The wakers are left out.
--
-- Backoff, with its children: crates/zerokv/src/backoff.rs. The counter and the generator of `Backoff`,
-- and `random_geometric_level`.
--
-- Mesh, with its children: crates/zerokv/src/mesh.rs. The workers of `run_put_workload` as a step
-- relation: `put`, `pump` and the quiescing loop, with the rings as bounded queues and the shards as
-- functions. The service mode of the same file is not modelled.
--
-- Executor, with its children: crates/zerokv/src/executor.rs. The run queue of `Executor` as a step
-- relation, where a future is whatever it does when polled; Block is `block_on`, whose rounds are
-- given as fuel and whose other threads wake it as a function of the round, with the flag `awake`, the
-- token of `unpark` and the blocking in `park`; Reads is `AlignedBuf` and
-- `DirectIoRead`. The reference counts of the raw waker are left out.
--
-- Prelude, Words and Memory hold what these share: lists by native numbers, 64-bit words with
-- `next_power_of_two` and `align_up`, and byte memories.
--
-- Bounds and fuel. Words wrap at 2^64 where the source wraps; epochs, file offsets and the numbers of
-- commands and tasks, which no run brings there, are unbounded. Theorems on addresses ask for an
-- allocation that ends below 2^63, as an allocator's does. A loop on fuel comes with a proof that the
-- fuel is enough: `next_power_of_two` gets `n` rounds, `drop_slots` one round more than there are
-- slots, `write_loop` one more than there are bytes, an operation of a skip list three rounds more
-- than there are entries.
--
-- Not modelled: weak memory (every interleaving is sequentially consistent), the allocator and the
-- operating system beyond what they answer, the interleavings of several callers of one skip list
-- (crates/zerokv/src/skiplist.rs), prefetching and alignment of types, the derive macro
-- (crates/zerokv-derive), the demonstration program and the benchmarks.

pub mod Prelude
pub mod Words
pub mod Memory
pub mod Arena
pub mod Log
pub mod Index
pub mod Store
pub mod Regbuf
pub mod Commit
pub mod Spsc
pub mod Ebr
pub mod Backoff
pub mod Mesh
pub mod Executor
pub mod Skiplist
