-- ===== src/Registry/Runtime/Entries.antt =====
-- The entries of a shard of locks (runtime/redzone_race_rt.c, sync_for_in): the clock of each key.
use redzone.Prelude.{
  ℕ, suc, ◌+◌, ◌-◌, ◌≤◌, ◌≡◌, refl, arith, inl, inr, true, false, Option, none, some, List, [], ◌∷◌,
  ◌++◌, ◌==◌, if◌then◌else◌, get_elem?, set, length, Bool-cases, Option-cases,
}
use redzone.Race.{VectorClock, vc_init}
use redzone.Registry.{SyncEntry, SyncShard, sync_index, sync_for_in}

-- The clock that a list of entries has for a key
abbrev pub clock_in : List SyncEntry → ℕ → VectorClock
clock_in [] key = vc_init
clock_in (e ∷ es) key = if e.sync_key == key then e.sync_clock else clock_in es key

-- The entry for `key` stands at `j`, and writing its clock changes that of no other key.
pub record Found (es : List SyncEntry) (key j : ℕ) : Type 0 where
  pub entry : SyncEntry
  pub at : get_elem? es j ≡ some entry
  pub clock : entry.sync_clock ≡ clock_in es key
  pub put :
      (c : VectorClock) (other : ℕ)
      → clock_in (set es j (record entry { sync_clock = c })) other
        ≡ (if other == key then c else clock_in es other)

Found-later :
    (e : SyncEntry) (es : List SyncEntry) (key j : ℕ)
    → (e.sync_key == key) ≡ false
    → Found es key j
    → Found (e ∷ es) key (suc j)
Found-later e es key j differs f = record {
  entry = f.entry;
  at = f.at;
  clock = rw differs f.clock;
  put = λ c other. ground (arith, f.put c other, differs);
}

Found-here :
    (e : SyncEntry) (es : List SyncEntry) (key : ℕ)
    → (e.sync_key == key) ≡ true
    → Found (e ∷ es) key 0
Found-here e es key same = record {
  entry = e;
  at = refl;
  clock = rw same refl;
  put = λ c other. ground (arith, same);
}

-- The key is new: its clock is the initial one, and appending its entry changes no clock.
Found-appended :
    (es : List SyncEntry) (key i : ℕ)
    → sync_index es key i ≡ none
    → (Found (es ++ record { sync_key = key; sync_clock = vc_init } ∷ []) key (length es))
      × ((other : ℕ)
          → clock_in (es ++ record { sync_key = key; sync_clock = vc_init } ∷ []) other
            ≡ clock_in es other)
unfolding sync_index
Found-appended [] key i e = (Found-here _ [] key (ground arith), λ other. ground arith)
Found-appended (x ∷ es) key i e =
    let differs : (x.sync_key == key) ≡ false = ground (arith, e) in
    let (f, same) = Found-appended es key (i + 1) (rw differs at e) in
    (Found-later x _ key (length es) differs f, λ other. ground (arith, same other))

Found-indexed :
    (es : List SyncEntry) (key i k : ℕ)
    → sync_index es key i ≡ some k
    → (i ≤ k) × Found es key (k - i)
unfolding sync_index
Found-indexed [] key i k e = absurd (ground (arith, e))
Found-indexed (x ∷ es) key i k e = elim (Bool-cases (x.sync_key == key)) [
  | inl same ↦
      let here : i ≡ k = ground (arith, e, same) in
      let zeroth : k - i ≡ 0 = omega (arith, here) in
      (omega (arith, here), rw zeroth (Found-here x es key same))
  | inr differs ↦
      let (le, f) = Found-indexed es key (i + 1) k (rw differs at e) in
      let next : k - i ≡ suc (k - (i + 1)) = omega (arith, le) in
      (omega (arith, le), rw next (Found-later x es key (k - (i + 1)) differs f))
]

-- What sync_for_in finds or makes, if it can
pub record Placed (sh : SyncShard) (key : ℕ) (r : SyncShard × Option ℕ) : Type 0 where
  pub index : ℕ
  pub answer : r.1 ≡ some index
  pub found : Found r.0.entries key index
  pub same : (other : ℕ) → clock_in r.0.entries other ≡ clock_in sh.entries other

pub sync_for_in-Placed : (sh : SyncShard) (key : ℕ) → Placed sh key (sync_for_in true sh key)
unfolding sync_for_in
sync_for_in-Placed sh key = elim (Option-cases (sync_index sh.entries key 0)) [
  | inr (k, e) ↦
      let (le, f) = Found-indexed sh.entries key 0 k e in
      let zeroth : k - 0 ≡ k = omega arith in
      rw (e, sync_for_in)
        (record { index = k; answer = refl; found = rw (← zeroth) f; same = λ other. refl })
  | inl e ↦
      let (f, same) = Found-appended sh.entries key 0 e in
      rw (e, sync_for_in)
        (elim (Bool-cases (length sh.entries == sh.capacity)) [
          | inl full ↦
              rw full (record { index = length sh.entries; answer = refl; found = f; same = same })
          | inr room ↦
              rw room (record { index = length sh.entries; answer = refl; found = f; same = same })
        ])
]
