-- ===== src/Pass/Select/Outcome.antt =====
-- What leaving redundant checks out does to a run of a basic block (src/RedzonePass.cpp, against
-- __redzone_check of runtime/redzone_rt.c).
use redzone.Prelude.{
  ℕ, ◌≡◌, ◌≢◌, refl, arith, inl, inr, ap, sym, ◌∙◌, Bool, true, false, not, ◌&&◌, none, some, [],
  ◌∷◌, leb, ltb, ◌==◌, if◌then◌else◌, get_elem?, Bool-cases, Option-cases,
}
use mathlib.Core.Path.{subst}
use redzone.Report.{File, Access, read, write, Outcome, returns, ◌>>=◌}
use redzone.Table.{Block as Allocation, report}
use redzone.Heap.{Heap}
use redzone.Heap.Valid.{IsValid}
use redzone.Check.{check}
use redzone.Check.Exact.{in_bounds, check-block}
use redzone.Check.Bulk.{check-in_bounds}
use redzone.Pass.{Instr, Node, Block}
use redzone.Pass.Select.{
  access_info, is_call, Checked, Decision, no_access, safe, redundant, check_it, decide, decisions,
}
use redzone.Pass.Inline.Exact.{instrumented-check}
use redzone.Pass.Emit.{is_store}
use redzone.Pass.Select.Runs.{
  file_of, line_of, access_info-is_call, bind_same, check_of, run_checking_all, inline_of,
  run_emitted, PlacedAccess, Placed,
}

-- `effect` is what an instruction of the program does to the heap, which may end the run, and `env`
-- gives the address that a pointer holds in this run of the block.
module _ (effect : Instr → Heap → Outcome Heap) (env : ℕ → ℕ) (safe_at : ℕ → ℕ → Bool) where
  -- The range that was checked last lies in a live block.
  Known : Heap → Checked → Type 0
  Known h checked =
      (p : ℕ)
      → checked p ≢ 0
      → (k : ℕ) × ((b : Allocation) × (get_elem? h.table.blocks k ≡ some b)
          × (in_bounds b (env p) (checked p) ≡ true))

  -- An access of at least one byte in one allocation: its check passes exactly if it is in bounds.
  check_bounds :
      (h : Heap) (ptr size : ℕ) (mode : Access) (file : File) (line : ℕ)
      → IsValid h
      → PlacedAccess effect env safe_at h (some (ptr, size))
      → check h (env ptr) size mode file line ≡ returns tt
      → (k : ℕ) × ((b : Allocation) × (get_elem? h.table.blocks k ≡ some b)
          × (in_bounds b (env ptr) size ≡ true))
  unfolding report
  check_bounds h ptr size mode file line valid (pos, (k, (b, entry, lo, hi))) passes =
      let exact = check-block h k b (env ptr) size mode file line valid entry pos lo hi in
      (k, (b, entry, ground (arith, exact, passes)))

  module _ (Inv : Heap → Type 0) (invariant : (h : Heap) → Inv h → IsValid h)
      (kept : (i : Instr) (h h' : Heap) → effect i h ≡ returns h' → Inv h → Inv h')
      (plain : (i : Instr) (h h' : Heap)
        → is_call i ≡ false
        → effect i h ≡ returns h'
        → h'.table.blocks ≡ h.table.blocks) where
    -- What is known survives an instruction that is no call.
    Known-kept :
        (h h' : Heap) (n : Node) (checked : Checked)
        → is_call n.instr ≡ false
        → effect n.instr h ≡ returns h'
        → Known h checked
        → Known h' checked
    unfolding Known
    Known-kept h h' n checked quiet e known p some_size =
        let (k, (b, entry, inside)) = known p some_size in
        (k, (b, rw (plain n.instr h h' quiet e) entry, inside))

    module _ (h : Heap) (checked : Checked) (n : Node) (ns : Block) (inv : Inv h)
        (placed : PlacedAccess effect env safe_at h (access_info n.instr)) (known : Known h checked)
        (rest : (h' : Heap) (after : Checked)
          → Inv h'
          → Known h' after
          → run_emitted effect env safe_at h' (decisions safe_at after ns) ns
            ≡ run_checking_all effect env safe_at h' ns) where
      -- One node, by the decision for it.
      same_head :
          (d : Decision) (after : Checked)
          → decide safe_at checked n.instr ≡ (d, after)
          → inline_of effect env safe_at h d n ≡ check_of effect env safe_at h n
          → (check_of effect env safe_at h n ≡ returns tt
              → (h' : Heap) → effect n.instr h ≡ returns h'
              → Known h' after)
          → run_emitted effect env safe_at h (decisions safe_at checked (n ∷ ns)) (n ∷ ns)
            ≡ run_checking_all effect env safe_at h (n ∷ ns)
      unfolding run_emitted run_checking_all decisions
      same_head d after is same knows =
          rw (is, same)
            (bind_same (check_of effect env safe_at h n)
              (λ _. effect n.instr h >>= λ h'.
                run_emitted effect env safe_at h' (decisions safe_at after ns) ns)
              (λ _. effect n.instr h >>= λ h'. run_checking_all effect env safe_at h' ns)
              (λ u passed.
                bind_same (effect n.instr h)
                  (λ h'. run_emitted effect env safe_at h' (decisions safe_at after ns) ns)
                  (λ h'. run_checking_all effect env safe_at h' ns)
                  (λ h' e. rest h' after (kept n.instr h h' e inv) (knows passed h' e))))

      same_none :
          access_info n.instr ≡ none
          → run_emitted effect env safe_at h (decisions safe_at checked (n ∷ ns)) (n ∷ ns)
            ≡ run_checking_all effect env safe_at h (n ∷ ns)
      unfolding decide inline_of check_of Known
      same_none e = elim (Bool-cases (is_call n.instr)) [
        | inl c ↦
            same_head no_access (λ _. 0) (rw c) (rw (e, check_of))
              (λ _ h' eff p some_size. absurd (some_size refl))
        | inr c ↦
            same_head no_access checked (rw (c, e)) (rw (e, check_of))
              (λ _ h' eff. Known-kept h h' n checked c eff known)
      ]

      -- The check of the node passes.
      module _ (ptr size : ℕ) (e : access_info n.instr ≡ some (ptr, size))
          (unsafe : safe_at ptr size ≡ false) where
        -- The check of the node, written out
        check_here : Outcome (Unit {0})
        check_here =
            check h (env ptr) size (if is_store n.instr then write else read) (file_of n.loc)
              (line_of n.loc)

        check_of-check_here : check_of effect env safe_at h n ≡ check_here
        unfolding check_of check_here
        check_of-check_here = rw (e, unsafe, check_of)

        placed_here : PlacedAccess effect env safe_at h (some (ptr, size))
        placed_here = subst (PlacedAccess effect env safe_at h) e placed

        seen_passes :
            leb size (checked ptr) && not (checked ptr == 0) ≡ true → check_here ≡ returns tt
        unfolding check_here Known
        seen_passes seen =
            let (k, (b, entry, inside)) = known ptr (ground (arith, seen)) in
            check-in_bounds h k b (env ptr) size (if is_store n.instr then write else read)
              (file_of n.loc) (line_of n.loc) (invariant h inv) entry (ground (arith, inside, seen))

        inline_here : inline_of effect env safe_at h check_it n ≡ check_here
        unfolding inline_of check_here
        inline_here =
            let (pos, (k, (b, entry, lo, hi))) = placed_here in
            let fits = ((invariant h inv).placed k b entry).fits in
            rw (e, inline_of)
              (instrumented-check h (env ptr) size (if is_store n.instr then write else read)
                (file_of n.loc) (line_of n.loc) pos (omega (arith, fits, hi)))

        Known-now :
            check_here ≡ returns tt
            → Known h (λ p. if ptr == p && ltb (checked ptr) size then size else checked p)
        unfolding Known check_here
        Known-now passed p some_size = elim (Bool-cases (ptr == p && ltb (checked ptr) size)) [
          | inl new ↦
              let same : ptr ≡ p = ground (arith, new) in
              let (k, (b, entry, inside)) =
                check_bounds h ptr size (if is_store n.instr then write else read) (file_of n.loc)
                  (line_of n.loc) (invariant h inv) placed_here passed in
              let at : env ptr ≡ env p = ap env same in
              (k, (b, entry, ground (arith, new, inside, at)))
          | inr old ↦
              let (k, (b, entry, inside)) = known p (ground (arith, old, some_size)) in
              (k, (b, entry, ground (arith, old, inside)))
        ]

      same_access :
          (ptr size : ℕ)
          → access_info n.instr ≡ some (ptr, size)
          → run_emitted effect env safe_at h (decisions safe_at checked (n ∷ ns)) (n ∷ ns)
            ≡ run_checking_all effect env safe_at h (n ∷ ns)
      unfolding decide inline_of check_of
      same_access ptr size e =
          let c = access_info-is_call n.instr (ptr, size) e in
          elim (Bool-cases (safe_at ptr size)) [
            | inl ok ↦
                same_head safe checked (rw (c, e, ok)) (rw (e, ok, check_of))
                  (λ _ h' eff. Known-kept h h' n checked c eff known)
            | inr unsafe ↦ elim (Bool-cases (leb size (checked ptr) && not (checked ptr == 0))) [
              | inl seen ↦
                  same_head redundant checked (rw (c, e, unsafe, seen))
                    (sym
                      (check_of-check_here ptr size e unsafe ∙ seen_passes ptr size e unsafe seen))
                    (λ _ h' eff. Known-kept h h' n checked c eff known)
              | inr new ↦
                  same_head check_it
                    (λ p. if ptr == p && ltb (checked ptr) size then size else checked p)
                    (rw (c, e, unsafe, new))
                    (inline_here ptr size e unsafe ∙ sym (check_of-check_here ptr size e unsafe))
                    (λ passed h' eff.
                      Known-kept h h' n
                        (λ p. if ptr == p && ltb (checked ptr) size then size else checked p) c eff
                        (Known-now ptr size e unsafe
                          (sym (check_of-check_here ptr size e unsafe) ∙ passed)))
            ]
          ]

    same_run :
        (h : Heap) (checked : Checked) (ns : Block)
        → Inv h
        → ((h' : Heap) → Inv h' → Placed effect env safe_at h' ns)
        → Known h checked
        → run_emitted effect env safe_at h (decisions safe_at checked ns) ns
          ≡ run_checking_all effect env safe_at h ns
    unfolding run_emitted run_checking_all decisions
    same_run h checked [] inv placed known = refl
    same_run h checked (n ∷ ns) inv placed known =
        let rest : (h' : Heap) (after : Checked)
            → Inv h'
            → Known h' after
            → run_emitted effect env safe_at h' (decisions safe_at after ns) ns
              ≡ run_checking_all effect env safe_at h' ns =
          λ h' after inv' known'.
            same_run h' after ns inv' (λ h2 inv2. (placed h2 inv2).1) known' in
        elim (Option-cases (access_info n.instr)) [
          | inl e ↦ same_none h checked n ns inv ((placed h inv).0) known rest e
          | inr ((ptr, size), e) ↦
              same_access h checked n ns inv ((placed h inv).0) known rest ptr size e
        ]

    -- A run of a basic block under an invariant that implies a well-formed heap and, for every
    -- access of the block, that it has at least one byte and lies in one allocation, red zones
    -- included; calls may do anything to the heap that keeps the invariant, other instructions do
    -- not change the table. The pass's code, with its inlined test before the accesses that its
    -- decisions leave, and a run with a call of __redzone_check before every access that is not
    -- provably safe have the same outcome: the same final heap, or the same report.
    pub run_emitted-run_checking_all :
        (h : Heap) (ns : Block)
        → Inv h
        → ((h' : Heap) → Inv h' → Placed effect env safe_at h' ns)
        → run_emitted effect env safe_at h (decisions safe_at (λ _. 0) ns) ns
          ≡ run_checking_all effect env safe_at h ns
    unfolding Known
    run_emitted-run_checking_all h ns inv placed =
        same_run h (λ _. 0) ns inv placed (λ p some_size. absurd (some_size refl))
