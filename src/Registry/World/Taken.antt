-- ===== src/Registry/World/Taken.antt =====
-- Which handles stand in the table of threads that can be joined (runtime/redzone_race_rt.c,
-- reg_thread and take_thread).
use redzone.Prelude.{
  ℕ, zero, suc, ◌+◌, ◌-◌, ◌*◌, ◌≤◌, ◌≡◌, refl, ◌∙◌, arith, inl, inr, Bool, true, not, ◌&&◌, Option,
  none, some, List, [], ◌∷◌, ◌++◌, ◌==◌, if◌then◌else◌, length, set, replicate, Bool-cases,
  Option-cases,
}
use redzone.Prelude.Bits.{u64}
use redzone.Registry.{ThreadEntry, free_slot, first_free, reg_thread, take_thread}

-- How many entries in use have a pthread_t and a handle that a test accepts
abbrev pub counted : (ℕ → ℕ → Bool) → List ThreadEntry → ℕ
counted p [] = 0
counted p (e ∷ es) = (if e.used && p e.thr e.handle then 1 else 0) + counted p es

abbrev pub given : (ℕ → ℕ → Bool) → ℕ → Option ℕ → ℕ
given p thr none = 0
given p thr (some c) = if p thr c then 1 else 0

abbrev pub with_handle : ℕ → ℕ → ℕ → Bool
with_handle h thr handle = handle == h

abbrev pub with_both : ℕ → ℕ → ℕ → ℕ → Bool
with_both x h thr handle = thr == x && handle == h

-- How many have the handle `h`
abbrev pub held : List ThreadEntry → ℕ → ℕ
held es h = counted (with_handle h) es

-- How many have the pthread_t `x` and the handle `h`
abbrev pub entered : List ThreadEntry → (x h : ℕ) → ℕ
entered es x h = counted (with_both x h) es

pub counted-take_thread :
    (p : ℕ → ℕ → Bool) (es : List ThreadEntry) (thr : ℕ)
    → counted p (take_thread es thr).0 + given p thr (take_thread es thr).1 ≡ counted p es
unfolding take_thread
counted-take_thread p [] thr = refl
counted-take_thread p (e ∷ es) thr = elim (Bool-cases (e.used && e.thr == thr)) [
  | inl this ↦
      let same : e.thr ≡ thr = ground (arith, this) in rw this (rw (← same) (ground (arith, this)))
  | inr other ↦ rw other (omega (arith, counted-take_thread p es thr))
]

-- What take_thread does not find is not there.
pub take_thread-none :
    (es : List ThreadEntry) (thr h : ℕ) → (take_thread es thr).1 ≡ none → entered es thr h ≡ 0
unfolding take_thread
take_thread-none [] thr h missing = refl
take_thread-none (e ∷ es) thr h missing = elim (Bool-cases (e.used && e.thr == thr)) [
  | inl this ↦ absurd (ground (arith, this, missing))
  | inr other ↦
      let rest = take_thread-none es thr h (rw other at missing) in ground (arith, other, rest)
]

counted-append :
    (p : ℕ → ℕ → Bool) (xs ys : List ThreadEntry)
    → counted p (xs ++ ys) ≡ counted p xs + counted p ys
counted-append p [] ys = omega arith
counted-append p (x ∷ xs) ys = omega (arith, counted-append p xs ys)

counted-free : (p : ℕ → ℕ → Bool) (n : ℕ) → counted p (replicate n free_slot) ≡ 0
counted-free p zero = refl
counted-free p (suc n) = omega (arith, counted-free p n)

counted-first_free :
    (p : ℕ → ℕ → Bool) (es : List ThreadEntry) (i k thr c : ℕ)
    → first_free es i ≡ some k
    → (i ≤ k)
      × (counted p (set es (k - i) (record { thr = thr; handle = c; used = true }))
          ≡ counted p es + given p thr (some c))
unfolding first_free
counted-first_free p [] i k thr c e = absurd (ground (arith, e))
counted-first_free p (x ∷ es) i k thr c e = elim (Bool-cases (not x.used)) [
  | inl here ↦
      let at_i : i ≡ k = ground (arith, e, here) in
      let zeroth : k - i ≡ 0 = omega (arith, at_i) in
      (omega (arith, at_i), rw zeroth (ground (arith, here)))
  | inr there ↦
      let (le, same) = counted-first_free p es (i + 1) k thr c (rw there at e) in
      let next : k - i ≡ suc (k - (i + 1)) = omega (arith, le) in
      (omega (arith, le), rw next (omega (arith, same)))
]

pub counted-reg_thread :
    (p : ℕ → ℕ → Bool) (es : List ThreadEntry) (thr c : ℕ)
    → counted p (reg_thread true es thr c) ≡ counted p es + given p thr (some c)
unfolding reg_thread
counted-reg_thread p es thr c = elim (Option-cases (first_free es 0)) [
  | inr (k, e) ↦
      let same = counted-first_free p es 0 k thr c e in
      let zeroth : k - 0 ≡ k = omega arith in rw (reg_thread, e) (rw (← zeroth) (same.1))
  | inl e ↦
      let entry : ThreadEntry = record { thr = thr; handle = c; used = true } in
      let old = length es in
      let cap = if old == 0 then 16 else u64 (old * 2) in
      let slots = replicate (cap - old - 1) free_slot in
      rw (reg_thread, e)
        (counted-append p es (entry ∷ slots) ∙ ground (arith, counted-free p (cap - old - 1)))
]
