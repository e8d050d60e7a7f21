-- ===== src/Registry/Runtime/Threads.antt =====
-- runtime/redzone_race_rt.c, thread creation and join. Each is two or three steps, with the pthread
-- call between them, during which other threads run.
use redzone.Prelude.{ℕ, ◌+◌, Bool, Option, none, some, ◌==◌, if◌then◌else◌, update}
use redzone.Race.{thread_create, thread_join}
use redzone.Registry.{reg_thread, take_thread}
use redzone.Registry.Runtime.{Runtime, Allocator, PthreadCall, self}

-- trampoline, in the new thread: the handle is installed before the program's code runs.
unfoldable pub trampoline : Runtime → (os handle : ℕ) → Runtime
trampoline rt os handle = record rt { selfs = update rt.selfs os (some handle) }

-- rz_rt_pthread_create up to the pthread call: rz_thread_create on g_meta, for the rz_threads of the
-- parent at `p` and the child at `c`
unfoldable pub create_begin : Runtime → (p c : ℕ) → Runtime
create_begin rt p c =
    let made = thread_create rt.next_tid (rt.objects p) in
    record rt { objects = update (update rt.objects p made.0) c made.1; next_tid = rt.next_tid + 1 }

-- rz_rt_pthread_create after the pthread call returned `rc`. On success the new thread has the
-- pthread_t `thr`. It may have run since, from its trampoline on.
unfoldable pub create_end : (grow : Bool) → (thr c : ℕ) → Runtime → (rc : ℕ) → Runtime
create_end grow thr c rt rc =
    if rc == 0 then record rt { registry = reg_thread grow rt.registry thr c } else rt

-- rz_rt_pthread_create; `child` is NULL if one of the two allocations fails. `none` is the use of a
-- parent that is NULL.
unfoldable pub pthread_create :
    Allocator
    → (child : Option ℕ) → (real : PthreadCall) → (thr : ℕ) → Runtime
    → (os : ℕ) → Option (Runtime × ℕ)
pthread_create al child real thr rt os =
    let (rt1, parent) = self al.fresh rt os in
    elim child [
      | none ↦ some (real rt1)
      | some c ↦ elim parent [
        | none ↦ none
        | some p ↦
            let (rt2, rc) = real (create_begin rt1 p c) in
            some (create_end al.grow thr c rt2 rc, rc)
      ]
    ]

-- rz_rt_pthread_join after the pthread call returned 0; `none` is the use of a parent that is NULL.
unfoldable pub join_end : (thr : ℕ) → Runtime → (parent : Option ℕ) → Option Runtime
join_end thr rt parent =
    let (left, taken) = take_thread rt.registry thr in
    let rt' = record rt { registry = left } in
    elim taken [
      | none ↦ some rt'
      | some c ↦ elim parent [
        | none ↦ none
        | some p ↦ some (record rt' {
          objects = update rt'.objects p (thread_join (rt'.objects p) (rt'.objects c));
        })
      ]
    ]

-- rz_rt_pthread_join
unfoldable pub pthread_join :
    Allocator → PthreadCall → (thr : ℕ) → Runtime → (os : ℕ) → Option (Runtime × ℕ)
pthread_join al real thr rt os =
    let (rt1, parent) = self al.fresh rt os in
    let (rt2, rc) = real rt1 in
    if rc == 0
    then elim (join_end thr rt2 parent) [ none ↦ none | some rt3 ↦ some (rt3, rc) ]
    else some (rt2, rc)
