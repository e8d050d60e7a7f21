-- ===== src/Registry/Reports.antt =====
-- How often a race is printed (runtime/redzone_race_rt.c, should_report).
use redzone.Prelude.{
  ℕ, ◌+◌, ◌≤◌, ◌≡◌, refl, arith, inl, inr, false, ◌&&◌, List, [], ◌∷◌, ◌++◌, leb, ◌==◌,
  if◌then◌else◌, length, length-append, Bool-cases,
}
use redzone.Registry.{was_reported, should_report}

-- The calls of a run, the newest first: the pairs that g_report_lines holds afterwards, and the
-- number of calls that were told to print.
unfoldable pub run_reports : List (ℕ × ℕ) → List (ℕ × ℕ) × ℕ
run_reports [] = ([], 0)
run_reports ((line, prev_line) ∷ calls) =
    let before = run_reports calls in
    let after = should_report false before.0 line prev_line in
    (after.0, if after.1 then before.1 + 1 else before.1)

-- How often a pair stands in a list.
abbrev pub times : List (ℕ × ℕ) → ℕ → ℕ → ℕ
times [] line prev_line = 0
times ((l, p) ∷ pairs) line prev_line =
    (if l == line && p == prev_line then 1 else 0) + times pairs line prev_line

times-append :
    (pairs : List (ℕ × ℕ)) (l p line prev_line : ℕ)
    → times (pairs ++ (l, p) ∷ []) line prev_line
      ≡ times pairs line prev_line + (if l == line && p == prev_line then 1 else 0)
times-append [] l p line prev_line = omega arith
times-append ((a, b) ∷ pairs) l p line prev_line =
    omega (arith, times-append pairs l p line prev_line)

times-was_reported :
    (pairs : List (ℕ × ℕ)) (line prev_line : ℕ)
    → was_reported pairs line prev_line ≡ false
    → times pairs line prev_line ≡ 0
unfolding was_reported
times-was_reported [] line prev_line h = refl
times-was_reported ((l, p) ∷ pairs) line prev_line h =
    elim (Bool-cases (l == line && p == prev_line)) [
      | inl same ↦ absurd (ground (arith, same, h))
      | inr other ↦
          rw other (omega (arith, times-was_reported pairs line prev_line (rw other at h)))
    ]

-- What a run of calls keeps to.
pub record Limited (calls : List (ℕ × ℕ)) : Type 0 where
  pub all_kept : (run_reports calls).1 ≡ length (run_reports calls).0
  pub few : length (run_reports calls).0 ≤ 16
  pub once : (line prev_line : ℕ) → times (run_reports calls).0 line prev_line ≤ 1

-- Unless all races are asked for, over any run of calls: the pairs of lines that should_report let
-- through are those that it holds, they are 16 at most, and no pair was let through twice.
pub run_reports-Limited : (calls : List (ℕ × ℕ)) → Limited calls
unfolding run_reports should_report
run_reports-Limited [] = record { all_kept = refl; few = omega arith; once = λ l p. omega arith }
run_reports-Limited ((line, prev_line) ∷ calls) =
    let before = run_reports-Limited calls in
    let pairs = (run_reports calls).0 in
    elim (Bool-cases (was_reported pairs line prev_line)) [
      | inl seen ↦ record {
        all_kept = rw seen before.all_kept;
        few = rw seen before.few;
        once = λ l p. rw seen (before.once l p);
      }
      | inr new ↦ elim (Bool-cases (leb 16 (length pairs))) [
        | inl full ↦ record {
          all_kept = rw (new, full) before.all_kept;
          few = rw (new, full) before.few;
          once = λ l p. rw (new, full) (before.once l p);
        }
        | inr room ↦
            let longer = length-append pairs ((line, prev_line) ∷ []) in
            record {
              all_kept = rw (new, room) (omega (arith, longer, before.all_kept));
              few = rw (new, room) (ground (arith, longer, room));
              once = λ l p.
                  rw (new, room, times-append pairs line prev_line l p)
                    (elim (Bool-cases (line == l && prev_line == p)) [
                      | inl same ↦
                          let one : line ≡ l = ground (arith, same) in
                          let two : prev_line ≡ p = ground (arith, same) in
                          let unseen : times pairs l p ≡ 0 =
                            rw (one, two) at (times-was_reported pairs line prev_line new) in
                          rw same (omega (arith, unseen))
                      | inr other ↦ rw other (omega (arith, before.once l p))
                    ]);
            }
      ]
    ]
