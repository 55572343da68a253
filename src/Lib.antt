-- ===== src/Lib.antt =====
-- saffi: the containers that cross the FFI boundary (ffi), the futures that are polled across it, and the
-- reactor that calls registered functions from one thread (libsavmasync).
--
-- The parts and their files. Paths of the program are from the repository's root.
--
-- Base, Base/Tests, Base/Lists, Base/Totals: numbers, Boolean tests, list laws and sums over lists that all
--   parts share. `usize` is the wrap-around of a 64-bit target.
-- Memory: blocks of typed cells at addresses, pointers as block and offset, and runs that return, panic or
--   are undefined (`ub`). Memory/Libsalloc is libsalloc/src/lib.rs over the functions of mimalloc, which are
--   a parameter: a record of functions with what mimalloc documents of them. Memory/Bump is an allocator
--   that fulfils it, for tests. Memory/Ensures states what a run may end in.
-- Vector: ffi/src/vector/mod.rs. A `Vector` is the address of its first element; the header with `len` and
--   `cap` stands before it in the same block, at the offsets that Vector/Sizes computes as `repr(C)` does.
--   Each method is the definition of its name. Vector/Rep says when a block holds a list; Access, Grow,
--   Push, Loop, Extend, Append, Bulk and Life prove the methods; Refinement compares sequences of calls with
--   calls on a list. Element types have a size of at least 1. An iterator is its items and its lower bound.
-- RtBox: ffi/src/boxed/mod.rs over the same memory. `code f` is the function at the address `f`, which `drop`
--   calls; RtBox/Life proves the life of a box. A box is its pointer; a function that takes
--   the box as `self` ends with the drop of what `self` still has, which `forget` takes away. `as_ptr` and
--   `as_mut_ptr` lend the pointer, and `deref` is a read through it.
-- Registry: libsavmasync/src/space.rs. `Registrations` with descriptors on a heap; `write`, `remove`, `get`
--   and `try_gc` are one step each, since the first two hold the writer's lock throughout. Slots has the
--   slots of one descriptor, Sweep the garbage list, Valid the invariant, and Collect, Write, Removal and
--   Operations the proofs; Growth counts the slots that are in use. Race takes `get` apart into the load and
--   the `fetch_add`. Addresses that `alloc` returns are arguments.
--   Registry/Atomics has the slots of one descriptor access by access: the holder of the lock goes through
--   `write` and `remove`, while threads of the pool load `active`, then `fnptr`, and then call. A `write`
--   without a free slot copies the slots, swaps the descriptor, drops the host's guard and pushes on `gc`
--   (`Growing`); later writes go to the successor, whose slots are not followed. Frames says what readers leave
--   alone; Silence, Removing, Called, Registering, Turns and Sound have the proofs, and Shows, Grows, Writes,
--   Removes and Alone compare the accesses with the searches of Slots.
-- Slicer: the loop of libsavmasync/src/lib.rs and the iterators of space.rs. A round is a function of
--   whether work was done and of the counter.
-- Reactor: savmasync/src/lib.rs, `Reactor` and the `setup_fn` and `cleanup_fn` that `generate!` makes, over the
--   exported functions of libsavmasync/src/lib.rs, which call Registry. `Process` holds the statics `SPACE` and
--   `SLICER`. The allocator is a record of an address for each valid state and its laws; Allocators has one
--   that fulfils them. Setup and Cleanup have the proofs. Calls come one after the other.
-- SharableStr: ffi/src/string/str.rs over the memory of Vector, with bytes as values. SharableStr/Life and
--   Passing have the proofs; the test of UTF-8 is a parameter.
-- CodeStore: members/loomtests/src/arcstore/im.rs, `SwappableCodeStore`. Readers (`read`) and one writer (`write`)
--   go from one access of the atomics to the next; `run` is an interleaving, `history` the sets that have
--   returned. Bits is the lock word, Valid the invariant, Readers, Writers and Runs its proof; Frames and Kept
--   say what a step leaves alone, Snapshots what guards show, Progress when `set` gets on. Script and Loom
--   are the tests of arcstore/mod.rs. The store has fewer than 2^29 readers; `tries` is below 2^32 - 1 where
--   it bounds the loop.
-- Waker: ffi/src/futures/atomiccw.rs. Bits is the state word; a thread moves from one access of the word to
--   the next (`Place`, `go`), and `run` is an interleaving, in which a weak exchange may fail at any time.
--   Lock proves the exclusion, Calls whole calls, Ownership and Wakers who frees and calls a waker while
--   thread 0 alone updates, and Stale what goes wrong where two do. Owners has threads that call only while
--   they own a reference, as the owners of Rust's `Waker` do; Running, Turns and Lives follow them from the first
--   reference to the last. Accesses are sequentially consistent. That the count of references neither
--   falls below 0 nor reaches 2^61 is a hypothesis where it matters.
-- LoomWaker: members/loomtests/src/waker/atomicwaker.rs, the copy of the waker that the loom tests run, with what
--   it asserts; Steps and Asserts compare it with Waker. The steps are `loom_go`; a failed assertion sets `panicked`.
--   Drivers has the three tests of waker/mod.rs as calls that each thread makes, Frames what a step leaves
--   alone, Scripts an invariant of threads that give back their reference last, and Passed the tests.
-- Future: ffi/src/futures/mod.rs and implements.rs, for calls that do not overlap. Future is `poll_future` and
--   the `FutureState` behind it, which calls `Waker`; Boundary is `FFIFuture`, over any callback `cb`. The
--   task and `Waker::clone` are parameters: a `Task` says what each poll answers, how it uses the waker of the
--   context and clones of it meanwhile (`Use`), and how its destructor uses the clones it has; what others do
--   with clones that it has handed out counts as a use of the next poll. `Owes` in Uses counts the clones, and
--   Disposal has the end of a task that still has some. Protocol says which calls a callback has to expect and what it
--   owes (`Serves`); Lifetime is the side of the caller, Answers and Contract that of `poll_future`, and Transparent
--   compares a future with its task. Life has the references, Polling the polls, and Wakers the functions
--   of `WAKER_VTABLE`, where `code v` is the table at the address `v`. `lifetime` stands for those that await a
--   future: a poll for each waker of a list until it is ready, then the drop.
--
-- Loops are structural recursion, so no fuel is used; the loops of `wake`, `update`, `get` and `set`, which may
-- spin for as long as others hold the lock, are steps of an interleaving instead.
--
-- Not modelled: the pool of threads and the thread of libsavmasync/src/lib.rs themselves, memory orderings, the
-- tests of ffi/src/tests, benchmarks and build scripts, the panic handler of libsalloc/src/lib.rs, and the
-- marker trait `FFISafe`.
pub mod Base
pub mod Memory
pub mod Vector
pub mod RtBox
pub mod Registry
pub mod SharableStr
pub mod Slicer
pub mod Reactor
pub mod Waker
pub mod LoomWaker
pub mod Future
pub mod CodeStore
