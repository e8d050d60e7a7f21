-- ===== src/Leaks/Totals.antt =====
-- What the leak report adds up to (runtime/redzone_rt.c, report_leaks).
use redzone.Prelude.{
  ℕ, ◌+◌, ◌<◌, ◌≡◌, ◌⊎◌, ◌∙◌, sym, refl, arith, inl, inr, Bool, true, false, not, ◌||◌, List, [],
  ◌∷◌, ◌==◌, if◌then◌else◌, update, Bool-cases,
}
use redzone.Prelude.Bits.{u64}
use redzone.Table.{Block}
use redzone.Leaks.{
  Text, is_unsuppressed_leak, leaked, SiteLine, Folded, same_site, fold_one, fold_site, site_of,
  site_lines,
}

-- What the lines of a text report add up to, as 64-bit sums.
abbrev pub line_totals : List SiteLine → ℕ × ℕ
line_totals [] = (0, 0)
line_totals (l ∷ ls) = (u64 (l.count + (line_totals ls).0), u64 (l.site_bytes + (line_totals ls).1))

-- The leaks from index `j` on that are not folded into an earlier line: the sum of what each of
-- them weighs, 1 for their number and the user size for their bytes.
abbrev open_leaks : (Block → ℕ) → List Text → List Block → ℕ → (ℕ → Bool) → ℕ
open_leaks weight supp [] j done = 0
open_leaks weight supp (o ∷ os) j done =
    if done j || not (is_unsuppressed_leak supp o)
    then open_leaks weight supp os (j + 1) done
    else u64 (weight o + open_leaks weight supp os (j + 1) done)

-- A mark below the index changes nothing.
open_leaks_mark :
    (weight : Block → ℕ) (supp : List Text) (os : List Block) (j i : ℕ) (done : ℕ → Bool)
    → i < j
    → open_leaks weight supp os j (update done i true) ≡ open_leaks weight supp os j done
open_leaks_mark weight supp [] j i done h = refl
open_leaks_mark weight supp (o ∷ os) j i done h =
    let other : (i == j) ≡ false = ground arith in
    rw (other, open_leaks_mark weight supp os (j + 1) i done (omega arith))

-- A block that a round of the inner loop folds into the line.
abbrev marked : Folded → Block → ℕ → Folded
marked acc o j = record {
  done = update acc.done j true;
  gathered = u64 (acc.gathered + 1);
  gathered_bytes = u64 (acc.gathered_bytes + o.user_size);
}

fold_one-cases :
    (supp : List Text) (b o : Block) (j : ℕ) (acc : Folded)
    → (fold_one supp b o j acc ≡ acc)
      ⊎ ((fold_one supp b o j acc ≡ marked acc o j)
          × ((acc.done j || not (is_unsuppressed_leak supp o)) ≡ false))
unfolding fold_one
fold_one-cases supp b o j acc =
    elim (Bool-cases (acc.done j || not (is_unsuppressed_leak supp o))) [
      | inl skipped ↦ inl (rw skipped)
      | inr seen ↦ elim (Bool-cases (same_site o b)) [
        | inl same ↦ inr (rw (seen, same), seen)
        | inr other ↦ inl (rw (seen, other))
      ]
    ]

-- The inner loop leaves the marks below its first index.
fold_site_below :
    (supp : List Text) (b : Block) (os : List Block) (j i : ℕ) (acc : Folded)
    → i < j
    → (fold_site supp b os j acc).done i ≡ acc.done i
unfolding fold_site
fold_site_below supp b [] j i acc h = refl
fold_site_below supp b (o ∷ os) j i acc h =
    let other : (j == i) ≡ false = ground arith in
    let later = fold_site_below supp b os (j + 1) i (fold_one supp b o j acc) (omega arith) in
    later ∙ elim (fold_one-cases supp b o j acc) [
      | inl same ↦ rw same
      | inr (fold, seen) ↦ rw (fold, other)
    ]

-- One more block in front, with the same mark before and after, keeps a sum.
same_in_front :
    (closed : Bool) (g h x y v : ℕ)
    → u64 (g + x) ≡ u64 (h + y)
    → u64 (g + (if closed then x else u64 (v + x))) ≡ u64 (h + (if closed then y else u64 (v + y)))
same_in_front true g h x y v e = e
same_in_front false g h x y v e = omega arith

-- The inner loop moves leaks from the open ones to the line, and loses none.
fold_site_keeps :
    (supp : List Text) (b : Block) (os : List Block) (j : ℕ) (acc : Folded)
    → (u64 (
          (fold_site supp b os j acc).gathered
          + open_leaks (λ _. 1) supp os j (fold_site supp b os j acc).done)
        ≡ u64 (acc.gathered + open_leaks (λ _. 1) supp os j acc.done))
      × (u64 (
            (fold_site supp b os j acc).gathered_bytes
            + open_leaks (λ o. o.user_size) supp os j (fold_site supp b os j acc).done)
          ≡ u64 (acc.gathered_bytes + open_leaks (λ o. o.user_size) supp os j acc.done))
unfolding fold_site
fold_site_keeps supp b [] j acc = (refl, refl)
fold_site_keeps supp b (o ∷ os) j acc =
    let next = fold_one supp b o j acc in
    let final = fold_site supp b os (j + 1) next in
    let rest = fold_site_keeps supp b os (j + 1) next in
    let mark : final.done j ≡ next.done j =
      fold_site_below supp b os (j + 1) j next (omega arith) in
    let self : (j == j) ≡ true = ground arith in
    let sums = λ (weight : Block → ℕ). open_leaks weight supp os (j + 1) in
    elim (fold_one-cases supp b o j acc) [
      | inl same ↦
          let front = same_in_front (acc.done j || not (is_unsuppressed_leak supp o)) in
          let mark' : final.done j ≡ acc.done j = mark ∙ rw same in
          let n = rest.0 ∙ rw same in
          let m = rest.1 ∙ rw same in
          (
            rw mark' (
                front final.gathered acc.gathered (sums (λ _. 1) final.done)
                  (sums (λ _. 1) acc.done) 1 n),
            rw mark' (
                front final.gathered_bytes acc.gathered_bytes (sums (λ o. o.user_size) final.done)
                  (sums (λ o. o.user_size) acc.done) o.user_size m),
          )
      | inr (fold, seen) ↦
          let below = λ (weight : Block → ℕ).
            open_leaks_mark weight supp os (j + 1) j acc.done (omega arith) in
          let mark' : final.done j ≡ true = mark ∙ rw (fold, self) in
          let n : u64 (final.gathered + sums (λ _. 1) final.done)
              ≡ u64 (u64 (acc.gathered + 1) + sums (λ _. 1) acc.done) =
            rest.0 ∙ rw (fold, below (λ _. 1)) in
          let m : u64 (final.gathered_bytes + sums (λ o. o.user_size) final.done)
              ≡ u64 (u64 (acc.gathered_bytes + o.user_size) + sums (λ o. o.user_size) acc.done) =
            rest.1 ∙ rw (fold, below (λ o. o.user_size)) in
          (rw (mark', seen) (omega (arith, n)), rw (mark', seen) (omega (arith, m)))
    ]

-- The first loop counts every leak, as one that is in no line yet.
leaked_lem :
    (supp : List Text) (bs : List Block) (i : ℕ)
    → (leaked supp bs).0 ≡ open_leaks (λ _. 1) supp bs i (λ _. false)
      × (leaked supp bs).1 ≡ open_leaks (λ o. o.user_size) supp bs i (λ _. false)
unfolding leaked
leaked_lem supp [] i = (refl, refl)
leaked_lem supp (b ∷ bs) i =
    let rest = leaked_lem supp bs (i + 1) in
    elim (Bool-cases (is_unsuppressed_leak supp b)) [
      | inl leak ↦ (rw leak (omega (arith, rest.0)), rw leak (omega (arith, rest.1)))
      | inr other ↦ (rw other rest.0, rw other rest.1)
    ]

site_lines_marked :
    (supp : List Text) (bs : List Block) (i : ℕ) (done : ℕ → Bool)
    → ((line_totals (site_lines supp true bs i done)).0 ≡ open_leaks (λ _. 1) supp bs i done)
      × ((line_totals (site_lines supp true bs i done)).1
          ≡ open_leaks (λ o. o.user_size) supp bs i done)
unfolding site_lines site_of
site_lines_marked supp [] i done = (refl, refl)
site_lines_marked supp (b ∷ bs) i done =
    let start : Folded = record { done = done; gathered = 1; gathered_bytes = b.user_size } in
    let acc = fold_site supp b bs (i + 1) start in
    let keeps = fold_site_keeps supp b bs (i + 1) start in
    let skip = site_lines_marked supp bs (i + 1) done in
    let rest = site_lines_marked supp bs (i + 1) acc.done in
    elim (Bool-cases (is_unsuppressed_leak supp b)) [
      | inr other ↦ elim (Bool-cases (done i)) [
        | inl folded ↦ (rw (other, folded) skip.0, rw (other, folded) skip.1)
        | inr open_leak ↦ (rw (other, open_leak) skip.0, rw (other, open_leak) skip.1)
      ]
      | inl leak ↦ elim (Bool-cases (done i)) [
        | inl folded ↦ (rw (leak, folded) skip.0, rw (leak, folded) skip.1)
        | inr open_leak ↦ (
          rw (leak, open_leak, rest.0) (omega (arith, keeps.0)),
          rw (leak, open_leak, rest.1) (omega (arith, keeps.1)),
        )
      ]
    ]

site_lines_unmarked :
    (supp : List Text) (bs : List Block) (i : ℕ) (done : ℕ → Bool)
    → ((line_totals (site_lines supp false bs i done)).0
        ≡ open_leaks (λ _. 1) supp bs i (λ _. false))
      × ((line_totals (site_lines supp false bs i done)).1
          ≡ open_leaks (λ o. o.user_size) supp bs i (λ _. false))
unfolding site_lines site_of
site_lines_unmarked supp [] i done = (refl, refl)
site_lines_unmarked supp (b ∷ bs) i done =
    let rest = site_lines_unmarked supp bs (i + 1) done in
    elim (Bool-cases (is_unsuppressed_leak supp b)) [
      | inl leak ↦ (rw leak (omega (arith, rest.0)), rw leak (omega (arith, rest.1)))
      | inr other ↦ (rw other rest.0, rw other rest.1)
    ]

-- The lines of the text report, with or without the array of marks: their numbers of allocations
-- add up to the number of leaks that the report announces, and their bytes to its bytes, as sums
-- of 64-bit words.
pub site_lines-totals :
    (supp : List Text) (marks : Bool) (bs : List Block)
    → ((line_totals (site_lines supp marks bs 0 (λ _. false))).0 ≡ (leaked supp bs).0)
      × ((line_totals (site_lines supp marks bs 0 (λ _. false))).1 ≡ (leaked supp bs).1)
site_lines-totals supp true bs =
    let lines = site_lines_marked supp bs 0 (λ _. false) in
    let first = leaked_lem supp bs 0 in (lines.0 ∙ sym first.0, lines.1 ∙ sym first.1)
site_lines-totals supp false bs =
    let lines = site_lines_unmarked supp bs 0 (λ _. false) in
    let first = leaked_lem supp bs 0 in (lines.0 ∙ sym first.0, lines.1 ∙ sym first.1)
