-- ===== src/Lib.antt =====
-- uni-jit compiles an intermediate representation to machine code at run time. This library models
-- the part of it that decides what code means and when it may run.
--
-- The parts, with paths from the repository's root, and the files that model them:
-- Word: the 64-bit words of src/ir/function.cpp (floor_divide_word, floor_modulo_word,
-- byte_swap_word) and of src/ir/interpreter.cpp (shift_left and the cases of evaluate_binary). A word
-- is its bit pattern, a number below 2 ^ 64; `signed` is its value as an integer. Word/Floor and
-- Word/ByteSwap compare the two algorithms with their specifications.
-- Ir: the operation codes (Ir/Opcode), the interpreter on unary, binary and guard nodes
-- (Ir/Evaluate), and src/ir/optimizer.cpp: fold_binary, fold_unary and fold_float_binary in
-- Ir/Optimizer/Fold, what transform_once makes of a live node in Ir/Optimizer/Decide. Doubles are a
-- parameter, the record Ir/Float.
-- Memory: src/ir/memory_access.cpp. Host memory is a function from addresses to bytes; resolve checks
-- an access against the regions of the context, and the loops move the bytes. Their rounds are the
-- bytes of the access, so they need no fuel.
-- Memory/Objects: src/ir/object_access.cpp and the binding of objects in the context. Fields are words
-- of eight bytes in the same memory, read and written by the byte loops in the host's order.
-- Memory/Atomics: src/ir/atomic_access.cpp. The mutex makes an access one step; a fence has no effect
-- on the memory. Atomics/Effects says what an operation means for numbers of its width.
-- Runtime/Context: include/unijit/runtime/execution_context.h, which memory accesses, guards and
-- invalidations write to.
-- Runtime/Assumption: src/runtime/assumption.cpp. Objects stand in stores indexed by address, a
-- mutex makes an operation one step, and invalidate is two steps with its wait between them.
-- Runtime/Deoptimization: src/runtime/deoptimization.cpp, the table that rebuilds a frame after an exit
-- that the context recorded.
-- Runtime/Osr: src/runtime/on_stack_replacement.cpp, the frames and plans by which an interpreter's
-- values become arguments of compiled code.
-- Runtime/Materialization: src/runtime/materialization.cpp, which builds the objects of a rebuilt frame.
-- The host's callbacks are a parameter, functions on a world; Build has materialize_frame, Transaction,
-- Calls and Outcome the calls that it makes, Sources and Slots what it checks.
-- Jit/Handle, Jit/Hotness and Jit/Tiering: the handles of src/jit/code_cache.cpp and the whole of
-- src/jit/tiering.cpp, with entry on the stack in Jit/Tiering/Osr;
-- Kept and Promotion follow a tiered code through its life. Tiered code publishes handles, whose
-- assumptions are those of Runtime/Assumption and whose exits are looked up in Runtime/Deoptimization.
-- What machine code does is a parameter, `run`.
-- Jit/Target: the profiles of src/jit/target.cpp, without their discovery.
-- Jit/CodeCache: the class CodeCache of src/jit/code_cache.cpp, with publish in Jit/CodeCache/Publish.
-- It hands out handles for keys and fingerprints, checks targets with Jit/Target and assumptions with
-- Runtime/Assumption. View gives the abstract view, a partial map; Invariant, Publication and History
-- concern sizes, Eviction and Recency the eviction loop, Refinement, Lookup and Acceptance the view.
-- Jit/Scheduler: the queues of src/jit/compilation_scheduler.cpp, with submit, run_worker's end, cancel and
-- shutdown in Jit/Scheduler/Operations. Jobs and worker threads are outside; a submission that waits is a
-- sequence of attempts. Lanes is about the order of pops, Counts, Submission and History about the
-- counters and the table, Standing and Deduplication about equal requests.
-- Common: Boolean tests, lists, bits, integers and byte strings that the parts share. Tests: runs on
-- concrete inputs.
--
-- Bounds: words, counters and generations are below 2 ^ 64, with the wrap or the saturation of the source
-- written out. Every loop of the source that is modelled is structural recursion on its list or on the
-- rounds that are left; the eviction loop has one round more than there are entries. Where the source catches std::bad_alloc, a Boolean says whether memory is found.
--
-- Not modelled: the text of messages; the machine code of the back ends and executable memory, which
-- need a semantics of the processors; the builders, the verifier, control flow, vectors, packages,
-- the register allocator; worker threads; the discovery of targets, which asks the
-- processor; the front ends, which translate for third-party interpreters; objects that were moved from.
pub mod Common
pub mod Status
pub mod Word
pub mod Ir
pub mod Runtime
pub mod Memory
pub mod Jit
pub mod Tests
