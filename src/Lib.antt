-- ===== src/Lib.antt =====
-- redzone, a memory-error and data-race detector for C: a model of its runtime library and its
-- instrumentation pass.
--
-- The program instruments C code so that allocations, accesses and synchronization call a runtime.
-- The runtime has two parts that share nothing. The memory part (runtime/redzone_rt.c) surrounds
-- every heap block, stack slot and global with red zones, keeps one shadow byte for each aligned 8
-- bytes, records each block in a table, and stashes in the block's left red zone a header that
-- leads back to the table. An access is checked against the shadow; the table is read to free a
-- block, and to name a violation. The race part (runtime/redzone_race.h, runtime/redzone_race.c)
-- keeps a vector clock for each thread and lock and a few recent accesses for each 8-byte word,
-- and reports an access that is not ordered after a conflicting one.
--
-- The files, and the code they are about:
--   Prelude, Prelude/*     shared names; lists, Boolean tests; 64-bit arithmetic and bit masks
--   Shadow                 redzone_rt.c: shadow_ptr, shadow_load, set_shadow_byte,
--                          set_shadow_range, byte_poisoned, __redzone_stack_enter and _leave,
--                          __redzone_global_register and _register_right. Shadow/Range says what
--                          these do to one byte, Shadow/Zone what a zone protects.
--   Memory                 the bytes of the address space, with memcpy, memset and words
--   Report                 Finding, report_free_error, report_simple. A report ends the program:
--                          it is the value `reports` of an Outcome
--   Output                 json_str, json_finding, sarif_doc, capture_trace, trim_frame, rz_format,
--                          rz_color_on; Output/Text has the text reports, Output/Sarif the SARIF
--                          document, Output/Choices the environment's choices. Output/Read is a
--                          reader of JSON strings by which the writer is judged; Output/Strings,
--                          Output/Lines and Output/Plain are proofs
--   Table                  Block, g_blocks, find_block, record_block, report
--   Heap                   Header, block_from_user_ptr, __redzone_owns, __redzone_maybe_owns,
--                          __redzone_usable_size. Heap/Ops has the allocator: rz_allocate and the
--                          entry points malloc, calloc, realloc, aligned_alloc, posix_memalign,
--                          free. Heap/Valid is the invariant; the other files of Heap are proofs
--   Check                  __redzone_check, __redzone_memcpy, _memmove, _memset; Check/Exact,
--                          Check/Bulk and Check/Clear are proofs. Check/Program has the runs of an
--                          instrumented program on the memory runtime; the files below it are proofs
--                          about them
--   Strings                __redzone_strcpy, _strcat, _strncpy, _strncat, _strlcpy, _strlcat;
--                          Strings/Bounds has proofs, Strings/Formatted has __redzone_snprintf and
--                          __redzone_sprintf
--   Leaks                  load_suppressions, leak_suppressed, report_leaks. Leaks/Totals and
--                          Leaks/Quiet are proofs
--   Interpose              runtime/redzone_interpose.c: rz_i_malloc, rz_i_calloc, rz_i_realloc,
--                          rz_i_free, rz_i_malloc_size, the zone's callbacks; Interpose/Routing has
--                          proofs
--   Race                   rz_vc_*, rz_race_check, rz_thread_*, rz_mutex_*; Race/Cells has find_bucket
--                          and rz_race_access_loc. Race/Trace runs these over a list of events, and
--                          defines what has happened before what, with no clock; the other
--                          files of Race are proofs
--   Registry               runtime/redzone_race_rt.c: should_report, reg_thread, take_thread,
--                          sync_for_in, the shards; Registry/Reports has proofs. Registry/Runtime has
--                          the whole runtime's state, self, the wrappers of the locks and atomics,
--                          Registry/Runtime/Threads thread creation and join; Registry/Runtime/Access
--                          has access_range, and the exit handler of runtime/redzone_race_main.c. The
--                          other files there compare it with the engine. Registry/World has the runs
--                          of a threaded program on the runtime, as steps of any threads in any
--                          order; the files below it compare the runs with the engine's
--   Pass                   src/RedzonePass.cpp: the program that the pass reads and what it emits.
--                          Pass/Ignore has the ignore-list, Pass/Calls the table of redirected
--                          calls, Pass/Prototypes the declarations of the runtime's functions,
--                          Pass/Select which accesses need no check and the runs that this is
--                          judged by, Pass/Layout the red zones of globals and allocas, Pass/Inline
--                          the inlined test, Pass/Emit a whole function, Pass/Uses the addresses of
--                          allocators, Pass/Sync the race mode; the files below these are proofs
--   Tests                  the theorems at concrete inputs
--
-- State and bounds. A machine word is a natural number, and each 64-bit operation of the source
-- that can wrap is written with its remainder modulo 2 ^ 64. A heap is the shadow, the table and
-- the memory; a shadow byte is a number below 256, negative in the source from 128 on. The covered
-- range ends at 2 ^ 47, as in the source. Vector clocks have 64 entries that are used. The loops
-- run on the length of a list, the number of rounds of the source (64 entries of a clock, the
-- buckets of a table), or a count of bytes; strlen scans at most the 2 ^ 64 addresses there are. So
-- none needs fuel beyond what the code itself bounds, but for the loop of access_range, which has fuel
-- and a theorem that it ends.
--
-- What the code does not define is a parameter: a pthread call is a function on the state of the
-- race runtime, since other threads run meanwhile; libc's memcpy is a function on memory, which
-- copies between ranges that do not overlap; vsnprintf may fail for a size above INT_MAX; what the
-- symbolizer finds for a frame is a function of the frame's text; System holds the answers of the
-- system allocator while one operation runs, and Heap.Alloc.Grants is what malloc promises of a
-- region that it grants. The runtime never gives a block back, so a granted region is apart from
-- every block. In Registry/World the allocator always gives memory, an rz_thread where none is
-- allocated, and pthread_join returns 0 once the joined thread has run and ended, a pthread_t names
-- one thread that can be joined, and no thread is detached. A thread id is a natural number, where
-- next_tid is an int. In Check/Program the system allocator gives fresh regions, a store writes at
-- most 16 bytes, memcpy, memmove and memset stay in a block, posix_memalign is given a place for
-- its result that meets no header, and stack slots and globals lie in no heap block.
--
-- Not modelled. The locks: an operation is one step, which is what the table lock provides for the
-- table, and the counter of re-entrant calls is an argument of the interposer's functions. The
-- symbolizer, which is another process. The dyld tuples and the registration of the malloc zone of
-- runtime/redzone_interpose.c. Of the pass, the counters and the registration as a plugin: LLVM is
-- not part of the repository, and what the pass asks it about a value is a field of Pass, or the
-- parameter `base_of` for what lies below a pointer.
pub mod Prelude
pub mod Shadow
pub mod Memory
pub mod Report
pub mod Output
pub mod Table
pub mod Heap
pub mod Check
pub mod Strings
pub mod Leaks
pub mod Interpose
pub mod Race
pub mod Registry
pub mod Pass
pub mod Tests
