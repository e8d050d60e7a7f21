-- ===== src/Prelude/Lists.antt =====
-- Lists measured and indexed by native numbers, under the library's names.
use Prim.Native.Nat.{ℕ, zero, suc, ◌+◌, ◌<◌}
use mathlib.Core.Path.{◌≡◌, refl, ap}
use mathlib.Core.Logic.{◌≢◌, ◌⊎◌, inl, inr}
use mathlib.Core.List.{List, [], ◌∷◌, ◌++◌}
use mathlib.Core.Option.{Option, none, some}
use native.Mathlib.Omega.{arith}

module _ {ℓ} {A : Type ℓ} where
  abbrev pub length : List A → ℕ
  length [] = 0
  length (x ∷ xs) = suc (length xs)

  abbrev pub get_elem? : List A → ℕ → Option A
  get_elem? [] i = none
  get_elem? (x ∷ xs) zero = some x
  get_elem? (x ∷ xs) (suc i) = get_elem? xs i

  -- A write out of bounds changes nothing.
  abbrev pub set : List A → ℕ → A → List A
  set [] i v = []
  set (x ∷ xs) zero v = v ∷ xs
  set (x ∷ xs) (suc i) v = x ∷ set xs i v

  abbrev pub replicate : ℕ → A → List A
  replicate zero a = []
  replicate (suc n) a = a ∷ replicate n a

  pub length-append : (xs ys : List A) → length (xs ++ ys) ≡ length xs + length ys
  length-append [] ys = omega arith
  length-append (x ∷ xs) ys = omega (arith, length-append xs ys)

  pub length-set : (xs : List A) (i : ℕ) (v : A) → length (set xs i v) ≡ length xs
  length-set [] i v = refl
  length-set (x ∷ xs) zero v = refl
  length-set (x ∷ xs) (suc i) v = ap suc (length-set xs i v)

  pub length-replicate : (n : ℕ) (a : A) → length (replicate n a) ≡ n
  length-replicate zero a = refl
  length-replicate (suc n) a = ap suc (length-replicate n a)

  pub get_elem?-lt : (xs : List A) (i : ℕ) {v : A} → get_elem? xs i ≡ some v → i < length xs
  get_elem?-lt [] i h = ground arith
  get_elem?-lt (x ∷ xs) zero h = omega arith
  get_elem?-lt (x ∷ xs) (suc i) h = omega (arith, get_elem?-lt xs i h)

  pub get_elem?-set_self :
      (xs : List A) (i : ℕ) (v : A) → i < length xs → get_elem? (set xs i v) i ≡ some v
  get_elem?-set_self [] i v h = elim h [ ]
  get_elem?-set_self (x ∷ xs) zero v h = refl
  get_elem?-set_self (x ∷ xs) (suc i) v h = get_elem?-set_self xs i v (omega arith)

  pub get_elem?-set_ne :
      (xs : List A) (i j : ℕ) (v : A) → i ≢ j → get_elem? (set xs i v) j ≡ get_elem? xs j
  get_elem?-set_ne [] i j v h = refl
  get_elem?-set_ne (x ∷ xs) zero zero v h = absurd (h refl)
  get_elem?-set_ne (x ∷ xs) zero (suc j) v h = refl
  get_elem?-set_ne (x ∷ xs) (suc i) zero v h = refl
  get_elem?-set_ne (x ∷ xs) (suc i) (suc j) v h = get_elem?-set_ne xs i j v (λ e. h (ap suc e))

  pub get_elem?-append_left :
      (xs ys : List A) (i : ℕ) → i < length xs → get_elem? (xs ++ ys) i ≡ get_elem? xs i
  get_elem?-append_left [] ys i h = elim h [ ]
  get_elem?-append_left (x ∷ xs) ys zero h = refl
  get_elem?-append_left (x ∷ xs) ys (suc i) h = get_elem?-append_left xs ys i (omega arith)

  pub get_elem?-append_last : (xs : List A) (v : A) → get_elem? (xs ++ v ∷ []) (length xs) ≡ some v
  get_elem?-append_last [] v = refl
  get_elem?-append_last (x ∷ xs) v = get_elem?-append_last xs v

module _ {ℓ} {A : Type ℓ} where
  -- An entry of a list with one element appended is the new one or an old one.
  pub snoc-cases :
      (xs : List A) (v : A) (i : ℕ) {w : A}
      → get_elem? (xs ++ v ∷ []) i ≡ some w
      → ((i ≡ length xs) × (w ≡ v)) ⊎ ((i ≢ length xs) × (get_elem? xs i ≡ some w))
  snoc-cases [] v zero h = inl (refl, ground arith)
  snoc-cases [] v (suc i) h = ground arith
  snoc-cases (x ∷ xs) v zero h = inr (omega arith, h)
  snoc-cases (x ∷ xs) v (suc i) h = elim (snoc-cases xs v i h) [
    | inl p ↦ inl (ap suc p.0, p.1)
    | inr p ↦ inr (omega (arith, p.0), p.1)
  ]

  -- An entry of a list with one element replaced is the new one or an old one.
  pub set-cases :
      (xs : List A) (k : ℕ) (v : A) (i : ℕ) {w : A}
      → get_elem? (set xs k v) i ≡ some w
      → ((i ≡ k) × (w ≡ v)) ⊎ ((i ≢ k) × (get_elem? xs i ≡ some w))
  set-cases [] k v i h = ground arith
  set-cases (x ∷ xs) zero v zero h = inl (refl, ground arith)
  set-cases (x ∷ xs) zero v (suc i) h = inr (omega arith, h)
  set-cases (x ∷ xs) (suc k) v zero h = inr (omega arith, h)
  set-cases (x ∷ xs) (suc k) v (suc i) h = elim (set-cases xs k v i h) [
    | inl p ↦ inl (ap suc p.0, p.1)
    | inr p ↦ inr (omega (arith, p.0), p.1)
  ]
