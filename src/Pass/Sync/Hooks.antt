-- ===== src/Pass/Sync/Hooks.antt =====
-- What the race mode leaves of a program (src/RedzonePass.cpp, runRaceMode).
use redzone.Prelude.{
  ℕ, ◌≡◌, refl, arith, Bool, true, false, not, ◌&&◌, ◌||◌, Option, none, some, List, [], ◌∷◌, ◌++◌,
  if◌then◌else◌, String, str_eq, inl, inr, Option-cases, Bool-cases,
}
use redzone.Pass.{Instr, Loc, load, store, call, Node, Block, Emitted, original, runtime_call}
use redzone.Pass.Sync.{
  sync_names, find_sync, sync_target, plain_name, access_hook, hooks, redirect_sync, race_node,
  race_block,
}

-- A call that the race mode adds, and does not put in the place of one of the program's.
unfoldable pub is_hook_name : String → Bool
is_hook_name n =
    str_eq n "rz_rt_read"
    || str_eq n "rz_rt_write"
    || str_eq n "rz_rt_atomic_release"
    || str_eq n "rz_rt_atomic_acquire"

abbrev pub is_hook : Emitted → Bool
is_hook (runtime_call callee args) = is_hook_name callee
is_hook _ = false

abbrev pub erase_hooks : List Emitted → List Emitted
erase_hooks [] = []
erase_hooks (e ∷ es) = let rest = erase_hooks es in if is_hook e then rest else e ∷ rest

-- A direct call of a synchronization function
abbrev pub is_synchronization : Instr → Bool
is_synchronization (call (some callee) args) = elim (sync_target callee) [
  | none ↦ false
  | some to ↦ true
]
is_synchronization _ = false

-- No name of a synchronization function, the assembler labels of macOS included
unfoldable pub not_sync : String → Bool
not_sync callee = elim (sync_target callee) [ none ↦ true | some to ↦ false ]

abbrev pub no_direct_sync : List Emitted → Bool
no_direct_sync [] = true
no_direct_sync (original n ∷ es) = not (is_synchronization n.instr) && no_direct_sync es
no_direct_sync (runtime_call callee args ∷ es) = not_sync callee && no_direct_sync es
no_direct_sync (_ ∷ es) = no_direct_sync es

no_hooks : List (String × String) → Bool
no_hooks [] = true
no_hooks ((k, to) ∷ names) = not (is_hook_name to) && no_hooks names

sync_names-no_hooks : no_hooks sync_names ≡ true
unfolding no_hooks is_hook_name
sync_names-no_hooks = refl

find_sync-is_hook_name :
    (names : List (String × String)) (n to : String)
    → no_hooks names ≡ true
    → find_sync names n ≡ some to
    → is_hook_name to ≡ false
unfolding find_sync no_hooks
find_sync-is_hook_name [] n to ok e = ground (arith, e)
find_sync-is_hook_name ((k, w) ∷ names) n to ok e = elim (Bool-cases (str_eq n k)) [
  | inl here ↦ let same : w ≡ to = ground (arith, here, e) in rw (← same) (ground (arith, ok))
  | inr there ↦ find_sync-is_hook_name names n to (ground (arith, ok)) (ground (arith, there, e))
]

targets_not_sync : List (String × String) → Bool
targets_not_sync [] = true
targets_not_sync ((k, to) ∷ names) = not_sync to && targets_not_sync names

redirect_sync_kept : (n : Node) (i : Instr) → is_hook (redirect_sync n i) ≡ false
unfolding redirect_sync sync_target
redirect_sync_kept n (call (some callee) args) = elim (Option-cases (sync_target callee)) [
  | inl e ↦ ground (arith, e)
  | inr (to, e) ↦
      ground
        (arith, e, find_sync-is_hook_name sync_names (plain_name callee) to sync_names-no_hooks e)
]
redirect_sync_kept n _ = refl

erase_hooks-append :
    (xs ys : List Emitted) → erase_hooks (xs ++ ys) ≡ erase_hooks xs ++ erase_hooks ys
erase_hooks-append [] ys = refl
erase_hooks-append (x ∷ xs) ys = ground (arith, erase_hooks-append xs ys)

access_hook_erased :
    (w : Bool) (ptr : ℕ) (size : Option ℕ) (loc : Loc)
    → erase_hooks (access_hook w ptr size loc) ≡ []
unfolding access_hook is_hook_name
access_hook_erased w ptr none loc = refl
access_hook_erased true ptr (some size) loc = refl
access_hook_erased false ptr (some size) loc = refl

hooks_erased :
    (i : Instr) (loc : Loc)
    → (erase_hooks (hooks i loc).0 ≡ []) × (erase_hooks (hooks i loc).1 ≡ [])
unfolding hooks is_hook_name
hooks_erased (load ptr size false) loc = (access_hook_erased false ptr size loc, refl)
hooks_erased (store ptr size false) loc = (access_hook_erased true ptr size loc, refl)
hooks_erased _ loc = (refl, refl)

race_node_erased : (n : Node) → erase_hooks (race_node false n) ≡ race_node true n
unfolding race_node
race_node_erased n =
    let h = hooks_erased n.instr n.loc in
    let kept = redirect_sync_kept n n.instr in
    rw
      (erase_hooks-append (hooks n.instr n.loc).0
        (redirect_sync n n.instr ∷ (hooks n.instr n.loc).1))
      (ground (arith, h, kept))

race_node_same : (n : Node) → erase_hooks (race_node true n) ≡ race_node true n
unfolding race_node
race_node_same n = ground (arith, redirect_sync_kept n n.instr)

-- The race mode's code of a block whose function does not opt out: without the calls of the four
-- hooks it is the code of the same block in a function that opts out: the hooks
-- are all that the attribute turns off.
pub erase_hooks-race_block : (ns : Block) → erase_hooks (race_block false ns) ≡ race_block true ns
unfolding race_block
erase_hooks-race_block [] = refl
erase_hooks-race_block (n ∷ ns) =
    rw (erase_hooks-append (race_node false n) (race_block false ns))
      (ground (arith, race_node_erased n, erase_hooks-race_block ns))

abbrev pub all_without_sync : List (List Emitted) → Bool
all_without_sync [] = true
all_without_sync (b ∷ bs) = no_direct_sync b && all_without_sync bs
