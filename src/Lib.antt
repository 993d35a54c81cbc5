-- ===== src/Lib.antt =====
-- tcio: byte buffers with reference counts, numbers in text, buffers as cursors, and small
-- asynchronous adapters.
--
-- The program is a library. `Bytes` (src/bytes/bytes.rs) is an immutable view of a buffer and
-- `BytesMut` (src/bytes/bytes_mut.rs) a growable one; both keep a pointer, a length and a tagged
-- word, which is null, odd with an offset, or the address of a control block with a reference count
-- (src/bytes/shared.rs). `ByteStr` (src/bytes/bytestr.rs) is a `Bytes` whose bytes are UTF-8. `Buf`
-- (src/bytes/buf.rs) reads any such value as a cursor over chunks; `Take` and `Chain` adapt
-- cursors, and `AsyncWrite` (src/io/write.rs) writes them out. src/num/num.rs parses integers,
-- src/futures holds two adapters of futures.
--
-- Files and what they model:
--   Base      names shared by all: tests on numbers, lists by native length, word bounds, integers.
--   Num       src/num/num.rs: `atou`, `wrapping_atou`, `atoi`.
--   Memory    what the unsafe code relies on: cells that are unmapped, uninitialised or hold a byte,
--             the live buffers of `Vec<u8>`, the live control blocks, and runs that end well, panic,
--             abort or fault. A fault is undefined behaviour: a read of a cell without a byte, a write
--             outside every buffer, overlapping ranges in `copy_nonoverlapping`, a control block that
--             is gone, a buffer given back twice or with another capacity.
--   Shared    src/bytes/shared.rs. Shared/Backed says when a word backs an address range, Shared/Keep
--             which steps leave every handle as it was.
--   Bytes     src/bytes/bytes.rs: the operations, and below them one file per group of theorems.
--             Bytes/Threads splits `clone` into its atomic steps, for two threads on one handle.
--   BytesMut  src/bytes/bytes_mut.rs, in the same way; the arms of `reserve_inner` are in Reserve,
--             Realloc and Reclaim, and Room puts them together.
--   Convert   `freeze`, `into_vec` and `into_mut`, which go from one of the two to the other.
--   Pool      programs with many `Bytes`: a state is a heap and the live handles, a step is a new
--             handle or any action on one, and `effect` says on lists what the action does. Pool/Heir,
--             Split, Cut and Create are the pool before and after one operation, Act and Obey put the
--             actions together, Safety has the states that a program reaches.
--   ByteStr   src/bytes/bytestr.rs, with a check of UTF-8 by the table of the language.
--   Transfer  `BytesMut` as a target, its Read and Write (src/bytes/bytes_mut.rs), and `copy_to_bytes`
--             of src/bytes/buf.rs with its overrides, which goes through it.
--   Uninit    src/bytes/uninit_slice.rs: writes through a slice of memory.
--   Buf       src/bytes/buf.rs, src/bytes/take.rs, src/bytes/chain.rs: the trait as a record of
--             operations, and its contract `Lawful`. Buf/Slots has the vectored chunks, with the
--             promises `Fills` and `Complete` of Buf/Vectored.
--   Io        src/io/write.rs and src/io/read.rs.
--   BufMut    src/bytes/buf_mut.rs: the trait, its default methods, slices, vectors and chains as
--             targets.
--   Futures   src/futures/map.rs and src/futures/then.rs.
--   Either    src/either/either.rs and src/either/either_map.rs: conversions, futures, iterators.
--   Fmt       src/fmt.rs: the characters that the lossy formatter writes.
--   Samples   small heaps for the tests; the Tests files run the operations on them.
--
-- How the code is read. A method on `&mut self` takes the handle as its last argument before the heap
-- and returns the new handle first. A machine word is a natural number, and a sum or product that can
-- wrap around has `% 2 ^ 64` written out. The allocator is a parameter: `g` answers a request for a
-- capacity with an address and a capacity, `k` is the address of the next control block; `IsFresh` and
-- `IsFreshBox` say that an answer is apart from everything in use. `seen` in `promote_ref` is the word
-- that `compare_exchange` finds. A release build is modelled: a `debug_assert!` is left out. Addresses
-- are not bounded by 2 ^ 64 except where a theorem says so.
--
-- Bounds and fuel. A count that can still grow is one of at most 2 ^ 63 - 1, beyond which `increment`
-- aborts. The sizes that `reserve` is used with are bounded so that `cap * 2` and `len + additional`
-- do not exceed `isize::MAX`, beyond which the allocator panics. The loop of `copy_to_slice` has the
-- length of the slice as its fuel and the one of `poll_write_all_buf` what remains of the buffer and
-- one more; each round moves one byte at least, and the theorems show that they do not run out. The
-- loops of `put` have what remains of the source as their fuel. `copy_to_bytes` and `put` call each
-- other in the source; `copy_to_bytes` is given its depth, and a depth of one is shown to be enough.
--
-- Not modelled: memory orderings, and the interleaving of threads other than in `clone`; src/tokio,
-- which only calls another crate; src/macros.rs; the traits for comparison, formatting and
-- conversion that only forward, and the implementations for references and boxes; `BytesMut` in the
-- pool.
pub mod Base
pub mod Num
pub mod Memory
pub mod Shared
pub mod Bytes
pub mod BytesMut
pub mod Convert
pub mod Pool
pub mod ByteStr
pub mod Transfer
pub mod Uninit
pub mod Buf
pub mod BufMut
pub mod Fmt
pub mod Io
pub mod Futures
pub mod Either
pub mod Samples
