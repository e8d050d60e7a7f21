-- ===== src/Leaks/Quiet.antt =====
-- When the leak report at exit is silent (runtime/redzone_rt.c, report_leaks).
use redzone.Prelude.{
  ℕ, zero, suc, ◌+◌, ◌≤◌, ◌<◌, ◌≡◌, ◌↔◌, refl, arith, inl, inr, Bool, true, false, some, List, [],
  ◌∷◌, length, get_elem?, Bool-cases, Option-cases, ◌++◌, ◌==◌, none, ap,
}
use redzone.Prelude.Bits.{u64_mod}
use redzone.Table.{Block}
use redzone.Leaks.{
  Text, strip_prefix, starts_with, contains, any_in, leak_suppressed, is_unsuppressed_leak, leaked,
  Format, text, json, sarif, quiet, report_leaks,
}

leaked-le : (supp : List Text) (bs : List Block) → (leaked supp bs).0 ≤ length bs
unfolding leaked
leaked-le supp [] = omega arith
leaked-le supp (b ∷ bs) = elim (Bool-cases (is_unsuppressed_leak supp b)) [
  | inl leak ↦ rw leak (omega (arith, leaked-le supp bs))
  | inr other ↦ rw other (omega (arith, leaked-le supp bs))
]

-- The pattern stands somewhere in the file name.
abbrev pub Within : Text → Text → Type 0
Within file p = (before after : Text) × (file ≡ before ++ p ++ after)

-- Every live block of the table has an allocation file, and one of the patterns stands in its name.
abbrev pub Clean : List Text → List Block → Type 0
Clean supp bs =
    (k : ℕ) (b : Block)
    → get_elem? bs k ≡ some b
    → b.freed ≡ false
    → (file p : Text) × (i : ℕ) × (b.alloc_file ≡ some file)
      × (get_elem? supp i ≡ some p)
      × Within file p

-- None is a leak by the code's test.
NoLeak : List Text → List Block → Type 0
NoLeak supp bs = (k : ℕ) (b : Block) → get_elem? bs k ≡ some b → is_unsuppressed_leak supp b ≡ false

none_leaked :
    (supp : List Text) (c : Block) (bs : List Block)
    → length bs + 1 < u64_mod
    → (leaked supp (c ∷ bs)).0 ≡ 0
    → (is_unsuppressed_leak supp c ≡ false) × ((leaked supp bs).0 ≡ 0)
unfolding leaked
none_leaked supp c bs few zero_leaks = elim (Bool-cases (is_unsuppressed_leak supp c)) [
  | inl leak ↦
      let count = rw leak at zero_leaks in absurd (omega (arith, count, few, leaked-le supp bs))
  | inr other ↦ (other, rw other at zero_leaks)
]

leaked-NoLeak :
    (supp : List Text) (bs : List Block)
    → length bs < u64_mod
    → (leaked supp bs).0 ≡ 0
    → NoLeak supp bs
unfolding NoLeak
leaked-NoLeak supp [] few zero_leaks k b e = ground arith
leaked-NoLeak supp (c ∷ bs) few zero_leaks zero b e =
    let clean = (none_leaked supp c bs (omega arith) zero_leaks).0 in ground (arith, clean, e)
leaked-NoLeak supp (c ∷ bs) few zero_leaks (suc k) b e =
    leaked-NoLeak supp bs (omega arith) (none_leaked supp c bs (omega arith) zero_leaks).1 k b e

NoLeak-leaked : (supp : List Text) (bs : List Block) → NoLeak supp bs → (leaked supp bs).0 ≡ 0
unfolding leaked NoLeak
NoLeak-leaked supp [] clean = refl
NoLeak-leaked supp (b ∷ bs) clean = rw (clean 0 b refl) (NoLeak-leaked supp bs (λ k. clean (suc k)))

strip_prefix_sound : (p s rest : Text) → strip_prefix p s ≡ some rest → s ≡ p ++ rest
unfolding strip_prefix
strip_prefix_sound [] s rest e = ground (arith, e)
strip_prefix_sound (c ∷ p) [] rest e = absurd (ground (arith, e))
strip_prefix_sound (c ∷ p) (d ∷ s) rest e = elim (Bool-cases (c == d)) [
  | inl same ↦
      let is : c ≡ d = ground (arith, same) in
      let more = strip_prefix_sound p s rest (rw same at e) in rw is (ap (λ t. d ∷ t) more)
  | inr other ↦ absurd (ground (arith, e, other))
]

starts_with-append : (p after : Text) → starts_with (p ++ after) p ≡ true
unfolding starts_with strip_prefix
starts_with-append [] after = refl
starts_with-append (c ∷ p) after = ground (arith, starts_with-append p after)

starts_with-Within : (s p : Text) → starts_with s p ≡ true → Within s p
unfolding starts_with
starts_with-Within s p e = elim (Option-cases (strip_prefix p s)) [
  | inl missing ↦ absurd (ground (arith, e, missing))
  | inr (rest, is) ↦ ([], rest, strip_prefix_sound p s rest is)
]

contains-Within : (s p : Text) → contains s p ≡ true → Within s p
unfolding contains
contains-Within [] p e = starts_with-Within [] p e
contains-Within (c ∷ s) p e = elim (Bool-cases (starts_with (c ∷ s) p)) [
  | inl here ↦ starts_with-Within (c ∷ s) p here
  | inr there ↦
      let (before, after, is) = contains-Within s p (ground (arith, e, there)) in
      (c ∷ before, after, ap (λ t. c ∷ t) is)
]

contains-append : (before p after : Text) → contains (before ++ p ++ after) p ≡ true
unfolding contains
contains-append [] [] [] = starts_with-append [] []
contains-append [] [] (d ∷ after) = ground (arith, starts_with-append [] (d ∷ after))
contains-append [] (c ∷ p) after = ground (arith, starts_with-append (c ∷ p) after)
contains-append (c ∷ before) p after = ground (arith, contains-append before p after)

any_in_sound :
    (file : Text) (supp : List Text)
    → any_in file supp ≡ true
    → (p : Text) × (i : ℕ) × (get_elem? supp i ≡ some p) × Within file p
unfolding any_in
any_in_sound file [] e = absurd (ground (arith, e))
any_in_sound file (q ∷ supp) e = elim (Bool-cases (contains file q)) [
  | inl here ↦ (q, 0, refl, contains-Within file q here)
  | inr there ↦
      let (p, i, at, inside) = any_in_sound file supp (ground (arith, e, there)) in
      (p, suc i, at, inside)
]

any_in_complete :
    (file p : Text) (supp : List Text) (i : ℕ)
    → get_elem? supp i ≡ some p
    → contains file p ≡ true
    → any_in file supp ≡ true
unfolding any_in
any_in_complete file p [] i at e = absurd (ground (arith, at))
any_in_complete file p (q ∷ supp) zero at e =
    let is : contains file q ≡ contains file p =
      ap (λ o. contains file (elim o [ none ↦ p | some t ↦ t ])) at in
    ground (arith, e, is)
any_in_complete file p (q ∷ supp) (suc i) at e = ground (arith, any_in_complete file p supp i at e)

-- The code's test says of one block what Clean says.
NoLeak-Clean : (supp : List Text) (bs : List Block) → NoLeak supp bs → Clean supp bs
unfolding NoLeak is_unsuppressed_leak leak_suppressed
NoLeak-Clean supp bs calm k b e live = elim (Option-cases b.alloc_file) [
  | inl none_known ↦ absurd (ground (arith, calm k b e, live, none_known))
  | inr (file, is) ↦
      let (p, i, at, inside) = any_in_sound file supp (ground (arith, calm k b e, live, is)) in
      (file, p, i, is, at, inside)
]

Clean-NoLeak : (supp : List Text) (bs : List Block) → Clean supp bs → NoLeak supp bs
unfolding NoLeak is_unsuppressed_leak leak_suppressed
Clean-NoLeak supp bs clean k b e = elim (Bool-cases b.freed) [
  | inl dead ↦ ground (arith, dead)
  | inr live ↦
      let (file, p, i, is, at, (before, after, inside)) = clean k b e live in
      let found : contains file p ≡ true = rw inside (contains-append before p after) in
      ground (arith, is, any_in_complete file p supp i at found)
]

-- With fewer than 2 ^ 64 blocks in the table, in every format and with or without memory for the
-- report: the program ends as it would exactly if the report is switched off, or every live block has
-- an allocation file in whose name one of the suppressed patterns stands.
pub report_leaks-quiet_iff :
    (on room : Bool) (fmt : Format) (supp : List Text) (bs : List Block)
    → length bs < u64_mod
    → (report_leaks on room fmt supp bs ≡ quiet) ↔ (on ≡ true → Clean supp bs)
unfolding report_leaks
report_leaks-quiet_iff false room fmt supp bs few = (λ _ on. ground arith, λ _. refl)
report_leaks-quiet_iff true room fmt supp bs few = (forth fmt, back)
  where
    forth : (f : Format) → report_leaks true room f supp bs ≡ quiet → true ≡ true → Clean supp bs
    forth text e _ = NoLeak-Clean supp bs (leaked-NoLeak supp bs few (ground (arith, e)))
    forth json e _ = NoLeak-Clean supp bs (leaked-NoLeak supp bs few (ground (arith, e)))
    forth sarif e _ = NoLeak-Clean supp bs (leaked-NoLeak supp bs few (ground (arith, e)))

    back : (true ≡ true → Clean supp bs) → report_leaks true room fmt supp bs ≡ quiet
    back clean = rw (NoLeak-leaked supp bs (Clean-NoLeak supp bs (clean refl)))
