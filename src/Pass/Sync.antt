-- ===== src/Pass/Sync.antt =====
-- src/RedzonePass.cpp, runRaceMode: the hooks of the race runtime, and the synchronization calls
-- that are redirected to its wrappers.
pub mod Hooks
use redzone.Prelude.{
  ℕ, Bool, true, false, ◌||◌, Option, none, some, List, [], ◌∷◌, ◌++◌, ◌==◌, if◌then◌else◌, String,
  str_eq, starts_with,
}
use redzone.Pass.{
  Operand, value, constant, Instr, load, store, atomic_rmw, cmpxchg, call, Loc, location, Node,
  Block, Fn, Emitted, original, runtime_call,
}
use Prim.Native.Char.{code}
use redzone.Pass.Emit.{all_untouched}

-- kSync
abbrev sync_names : List (String × String)
sync_names =
    ("pthread_create", "rz_rt_pthread_create")
    ∷ ("pthread_join", "rz_rt_pthread_join")
    ∷ ("pthread_mutex_lock", "rz_rt_pthread_mutex_lock")
    ∷ ("pthread_mutex_unlock", "rz_rt_pthread_mutex_unlock")
    ∷ ("pthread_mutex_trylock", "rz_rt_pthread_mutex_trylock")
    ∷ ("pthread_rwlock_rdlock", "rz_rt_pthread_rwlock_rdlock")
    ∷ ("pthread_rwlock_wrlock", "rz_rt_pthread_rwlock_wrlock")
    ∷ ("pthread_rwlock_tryrdlock", "rz_rt_pthread_rwlock_tryrdlock")
    ∷ ("pthread_rwlock_trywrlock", "rz_rt_pthread_rwlock_trywrlock")
    ∷ ("pthread_rwlock_unlock", "rz_rt_pthread_rwlock_unlock")
    ∷ ("pthread_cond_wait", "rz_rt_pthread_cond_wait")
    ∷ ("pthread_cond_timedwait", "rz_rt_pthread_cond_timedwait")
    ∷ []

unfoldable pub find_sync : List (String × String) → String → Option String
find_sync [] n = none
find_sync ((k, to) ∷ names) n = let rest = find_sync names n in if str_eq n k then some to else rest

-- consume_front("_")
unfoldable pub drop_underscore : String → String
drop_underscore String.[] = ""
drop_underscore (String.◌∷◌ c s) = if starts_with (String.◌∷◌ c s) "_" then s else String.◌∷◌ c s

-- The assembler label of macOS, "\01_pthread_join", becomes the plain name.
unfoldable pub plain_name : String → String
plain_name String.[] = ""
plain_name (String.◌∷◌ c s) = if code c == 1 then drop_underscore s else String.◌∷◌ c s

-- syncTarget
unfoldable pub sync_target : String → Option String
sync_target n = find_sync sync_names (plain_name n)

-- emitAccess: nothing for a scalable size
unfoldable pub access_hook : Bool → ℕ → Option ℕ → Loc → List Emitted
access_hook is_write ptr none loc = []
access_hook is_write ptr (some size) loc =
    runtime_call (if is_write then "rz_rt_write" else "rz_rt_read")
      (value ptr ∷ constant size ∷ location loc)
    ∷ []

abbrev release_hook : ℕ → List Emitted
release_hook ptr = runtime_call "rz_rt_atomic_release" (value ptr ∷ []) ∷ []

abbrev acquire_hook : ℕ → List Emitted
acquire_hook ptr = runtime_call "rz_rt_atomic_acquire" (value ptr ∷ []) ∷ []

-- The hooks of one memory instruction: those before it and those after it
unfoldable pub hooks : Instr → Loc → List Emitted × List Emitted
hooks (load ptr size false) loc = (access_hook false ptr size loc, [])
hooks (load ptr size true) loc = ([], acquire_hook ptr)
hooks (store ptr size false) loc = (access_hook true ptr size loc, [])
hooks (store ptr size true) loc = (release_hook ptr, [])
hooks (atomic_rmw ptr) loc = (release_hook ptr, acquire_hook ptr)
hooks (cmpxchg ptr) loc = (release_hook ptr, acquire_hook ptr)
hooks _ loc = ([], [])

-- setCalledFunction on a direct call of a synchronization function, with the same arguments
unfoldable pub redirect_sync : Node → Instr → Emitted
redirect_sync n (call (some callee) args) = elim (sync_target callee) [
  | some to ↦ runtime_call to args
  | none ↦ original n
]
redirect_sync n _ = original n

unfoldable pub race_node : Bool → Node → List Emitted
race_node opts_out n =
    if opts_out
    then redirect_sync n n.instr ∷ []
    else (let (before, after) = hooks n.instr n.loc in before ++ redirect_sync n n.instr ∷ after)

unfoldable pub race_block : Bool → Block → List Emitted
race_block opts_out [] = []
race_block opts_out (n ∷ ns) = race_node opts_out n ++ race_block opts_out ns

unfoldable pub race_blocks : Bool → List Block → List (List Emitted)
race_blocks opts_out [] = []
race_blocks opts_out (b ∷ bs) = race_block opts_out b ∷ race_blocks opts_out bs

-- A function of the module
unfoldable pub race_fn : Fn → List (List Emitted)
race_fn f =
    if f.is_declaration || starts_with f.name "__redzone" || starts_with f.name "rz_"
    then all_untouched f.blocks
    else race_blocks f.opts_out f.blocks
