-- ===== src/Lib.antt =====
-- A model of the smallishtalk virtual machine (the Rust crate at the repository's root: src/*.rs),
-- with the theorems that make its core correct.
--
-- The machine runs compiled Smalltalk. A value is a 64-bit word, a tagged integer or a pointer
-- (src/value.rs); objects lie in the spaces of a heap, behind a header word of bit fields
-- (src/heap.rs); the constants that all parts share are the treaty (src/treaty.rs). The interpreter
-- decodes 32-bit instructions (src/asm.rs, src/interp.rs), looks methods up through caches in front
-- of the class dictionaries (src/vm.rs, src/interp.rs), does integer arithmetic in place
-- (src/interp.rs, src/prims.rs) and stores pointers through a write barrier (src/vm.rs) that tells
-- the collector which old objects point into young space.
--
-- The files:
--   Base      helpers: tests, lists, integers, machine words and the laws of bit operations.
--   Treaty    src/treaty.rs: each constant under its name in lower case.
--   Value     src/value.rs: `Value`; Value/Tagging has the laws of its conversions.
--   Header    src/heap.rs, `Header`; Header/Fields has the laws of its fields.
--   Space     src/heap.rs, `Space`: bump allocation in a region of the shared memory.
--   Heap      src/heap.rs, `Heap`: object shape, slots, bytes and the walk. Heap/Alloc has the
--             allocators and what they leave; Heap/Walk the walk over a region with any history;
--             Heap/Barrier the write barrier of src/vm.rs and its remembered set.
--   Asm       src/asm.rs: instructions, assembler and disassembler, and their round trips.
--   SmallInt  the arithmetic arms of the loop in src/interp.rs and the integer primitives of
--             src/prims.rs.
--   Vm        src/vm.rs: the machine's state, classes, method lookup (Vm/Lookup), the global lookup
--             cache of src/interp.rs (Vm/Cache), method headers (Vm/MethodHeader), identity hashes.
--             Vm/Install has the installation of methods and classes with the flush of the caches.
--   Interp    src/interp.rs: registers and outcomes; frames (Interp/Frames, Interp/Push), returns and
--             unwinding (Interp/Unwind, Interp/Nlr), sends (Interp/Send), allocation with collection
--             (Interp/Collect), closures, process switches, safepoints, and the loop (Interp/Step,
--             Interp/Run). Calls and returns are in Interp/Calls, what a frame holds in Interp/Pushed
--             and Interp/Entered, unwinding in Interp/Rounds, Interp/Landing and Interp/NonLocal, and
--             sends with their sites in Interp/Found and Interp/Sites.
--   Gc        src/gc.rs: forwarding and scanning (Gc), the young collection (Gc/Young) and what a
--             copy keeps (Gc/Copied, Gc/Copy, Gc/Forward).
--   Png       src/png.rs: the writer, with a reader of the format (Png/Decode) that checks lengths,
--             complements, and the checksums by their definitions (Png/Sums, Png/Checked).
--   Access    at:, at:put: and size of src/prims.rs, and of src/interp.rs (Access/Fast).
--   Sched     the scheduler of src/prims.rs: process queues (Sched/Queue, with Sched/Enqueue,
--             Sched/Dequeue and Sched/Remove), priorities (Sched/Priority), timers (Sched/Timers),
--             the wait for a runnable process (Sched/Waiting) and the primitives of semaphores and
--             processes (Sched/Prims, Sched/Resume, Sched/Terminate). What the queues need of the heap is the
--             record of laws Sched/Slots, which Heap/Barrier fulfils for the objects of old space.
--   Handlers  the exception primitives of src/prims.rs (Handlers/Search: the search for a handler),
--             and the contents of a frame.
--   Objects   the primitives of src/prims.rs that make objects, reach into them, call blocks
--             (Objects/Block) and perform sends.
--   A module Tests holds the examples of the component that it stands in.
--
-- State is passed explicitly: an operation that the source writes on `&mut self` takes the record
-- and answers the changed one. Memory is a function from byte addresses of words to words, which all
-- spaces share; a `u64` is a native number with its wrap-around written out, an `i64` is an integer.
-- A panic and a failing `Option` are both `none`, and each file says which. Debug assertions, which a
-- release build leaves out, are left out.
--
-- An operation of the interpreter that may fail answers a value or an error of the machine, and one
-- that loops on fuel answers `none` where the fuel runs out.
--
-- Parameters: the interpreter takes the collections, the dispatch of the primitives and the send of
-- cannotReturn: as functions (the record `Env` of Interp/Send, and the arguments of Interp/Unwind);
-- what it reads of the outside, the armed flag and the time, is a sequence of inputs.
--
-- Fuel: `walk_region` takes a round for each object and one to stop; every object takes a word at
-- least, so that a round for each word of the region and one more are enough. The walk up the
-- superclasses takes a round for each class of the chain and one for nil. The search for a process in
-- its queue takes a round for each process before it and one more.
-- The unwinder takes a round for each frame that it pops, and a frame's caller lies at least four
-- slots below it, so that the offset of the frame and one more are enough; the doubling of a stack
-- that has slots takes fewer rounds than the slots that are needed. The wait for a process takes a
-- round for each time it reads; two rounds more than up to the time at which all timer requests are
-- due are enough. The search for a handler takes a round for each frame, and one for each class that
-- the exception inherits from and one more. The stored blocks of a PNG file take a round for each
-- byte at most and one to stop. The scan of the copied objects and the run loop have no bound of
-- their own: they answer `none` where the fuel given is not enough.
--
-- Not modelled: the system allocator (the addresses of the regions are parameters), files, the
-- clock, floating point and the screen, which are input and output or the machine's own; the
-- profiler and the gated counters, and the snapshot during a run; the Smalltalk sources under st/.
-- The compaction of old space (src/gc.rs), the image (src/image.rs), the host window
-- (src/host_ui.rs) and the primitives of src/prims.rs other than those named are not part of this
-- library.
pub mod Base
pub mod Treaty
pub mod Value
pub mod Asm
pub mod Header
pub mod Space
pub mod Heap
pub mod SmallInt
pub mod Vm
pub mod Access
pub mod Interp
pub mod Gc
pub mod Handlers
pub mod Objects
pub mod Png
pub mod Sched
