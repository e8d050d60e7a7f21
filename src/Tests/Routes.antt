-- ===== src/Tests/Routes.antt =====
-- The routes of pointers on the heap with one block.
use redzone.Prelude.{◌≡◌, false, none}
use redzone.Report.{returns, ◌>>=◌}
use redzone.Heap.Ops.{free}
use redzone.Interpose.{i_free, i_malloc_size}
use redzone.Interpose.Routing.{i_free-block, i_malloc_size-block}
use redzone.Tests.Samples.{block_a, heap_a, heap_a-IsValid, heap_a_entry}

i_free-block_example :
    i_free false heap_a 0x10010 ≡ (free heap_a 0x10010 >>= λ h'. returns (h', none))
i_free-block_example = i_free-block heap_a heap_a-IsValid false 0 block_a heap_a_entry

i_malloc_size-block_example : i_malloc_size (λ _. 0) heap_a 0x10010 ≡ 20
i_malloc_size-block_example =
    i_malloc_size-block heap_a heap_a-IsValid (λ _. 0) 0 block_a heap_a_entry
