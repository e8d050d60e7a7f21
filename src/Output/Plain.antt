-- ===== src/Output/Plain.antt =====
-- The colours of a text report are an addition (runtime/redzone_rt.c, col): without the escape
-- sequences, the coloured report is the plain one.
use redzone.Prelude.{
  ℕ, zero, suc, ◌+◌, ◌/◌, ◌%◌, ◌≡◌, refl, ap, ◌∙◌, arith, inl, inr, Bool, true, false, not, ◌&&◌,
  none, some, List, [], ◌∷◌, ◌++◌, ltb, leb, ◌==◌, if◌then◌else◌, codes, Bool-cases,
}
use redzone.Prelude.Bits.{u64}
use redzone.Report.{
  File, Kind, heap_buffer_overflow, use_after_free, stack_buffer_overflow, global_buffer_overflow,
  buffer_overflow, double_free, invalid_free, memory_leak, Access, read, write, not_applicable,
}
use redzone.Table.{Block}
use redzone.Output.{kind_text, digit, digits, decimal, hexadecimal}
use redzone.Output.Text.{
  Colour, red, cyan, dim, reset, col, Span, put, paint, print, Stack, trace_text, access_text,
  location_text, allocated_text, report_simple_text, region_text, report_text,
}

-- A text without its escape sequences, each from its escape character to an m
unfoldable pub without_colour : (inside : Bool) → List ℕ → List ℕ
without_colour inside [] = []
without_colour false (c ∷ cs) =
    let kept = without_colour false cs in
    let dropped = without_colour true cs in if c == 27 then dropped else c ∷ kept
without_colour true (c ∷ cs) =
    let kept = without_colour false cs in
    let dropped = without_colour true cs in if c == 109 then kept else dropped

-- No escape character
abbrev pub is_plain : List ℕ → Bool
is_plain [] = true
is_plain (c ∷ cs) = not (c == 27) && is_plain cs

abbrev pub all_plain : List Span → Bool
all_plain [] = true
all_plain (put s ∷ spans) = is_plain s && all_plain spans
all_plain (paint c ∷ spans) = all_plain spans

without_colour-append :
    (s rest : List ℕ)
    → is_plain s ≡ true
    → without_colour false (s ++ rest) ≡ s ++ without_colour false rest
unfolding without_colour
without_colour-append [] rest h = refl
without_colour-append (c ∷ s) rest h =
    let plain : (c == 27) ≡ false = ground (arith, h) in
    rw plain (ap (λ x. c ∷ x) (without_colour-append s rest (ground (arith, h))))

without_colour-col :
    (c : Colour) (rest : List ℕ)
    → without_colour false (col true c ++ rest) ≡ without_colour false rest
unfolding without_colour col
without_colour-col red rest = refl
without_colour-col cyan rest = refl
without_colour-col dim rest = refl
without_colour-col reset rest = refl

-- Whatever is printed from texts without an escape character: the coloured output without its
-- escape sequences is the output without colour.
pub without_colour-print :
    (spans : List Span)
    → all_plain spans ≡ true
    → without_colour false (print true spans) ≡ print false spans
unfolding print col without_colour
without_colour-print [] h = refl
without_colour-print (put s ∷ spans) h =
    without_colour-append s (print true spans) (ground (arith, h))
    ∙ ap (λ x. s ++ x) (without_colour-print spans (ground (arith, h)))
without_colour-print (paint c ∷ spans) h =
    without_colour-col c (print true spans) ∙ without_colour-print spans h

is_plain-append : (xs ys : List ℕ) → is_plain (xs ++ ys) ≡ (is_plain xs && is_plain ys)
is_plain-append [] ys = refl
is_plain-append (x ∷ xs) ys = ground (arith, is_plain-append xs ys)

is_plain-digits :
    (fuel base n : ℕ) (acc : List ℕ)
    → is_plain acc ≡ true
    → is_plain (digits fuel base n acc) ≡ true
unfolding digits
is_plain-digits zero base n acc h = h
is_plain-digits (suc fuel) base n acc h = elim (Bool-cases (ltb n base)) [
  | inl last ↦ rw last (ground (arith, h))
  | inr more ↦
      rw more (is_plain-digits fuel base (n / base) (digit (n % base) ∷ acc) (ground (arith, h)))
]

is_plain-decimal : (n : ℕ) → is_plain (decimal n) ≡ true
unfolding decimal
is_plain-decimal n = is_plain-digits 20 10 n [] refl

pub is_plain-hexadecimal : (n : ℕ) → is_plain (hexadecimal n) ≡ true
unfolding hexadecimal
is_plain-hexadecimal n = is_plain-digits 16 16 n [] refl

all_plain-append :
    (xs ys : List Span) → all_plain xs ≡ true → all_plain ys ≡ true → all_plain (xs ++ ys) ≡ true
all_plain-append [] ys hx hy = hy
all_plain-append (put s ∷ xs) ys hx hy =
    ground (arith, all_plain-append xs ys (ground (arith, hx)) hy, hx)
all_plain-append (paint c ∷ xs) ys hx hy = all_plain-append xs ys hx hy

is_plain-kind_text : (k : Kind) → is_plain (codes "==redzone ERROR: " ++ kind_text k) ≡ true
is_plain-kind_text heap_buffer_overflow = refl
is_plain-kind_text use_after_free = refl
is_plain-kind_text stack_buffer_overflow = refl
is_plain-kind_text global_buffer_overflow = refl
is_plain-kind_text buffer_overflow = refl
is_plain-kind_text double_free = refl
is_plain-kind_text invalid_free = refl
is_plain-kind_text memory_leak = refl

is_plain-access_text : (a : Access) → is_plain (access_text a) ≡ true
is_plain-access_text read = refl
is_plain-access_text write = refl
is_plain-access_text not_applicable = refl

-- A file name, if there is one, has no escape character.
abbrev pub plain_file : File → Bool
plain_file none = true
plain_file (some file) = is_plain file

is_plain-place :
    (file : List ℕ) (line : ℕ)
    → is_plain file ≡ true
    → is_plain (file ++ codes ":" ++ decimal line) ≡ true
is_plain-place file line h = simp (is_plain-append, is_plain-decimal, h)

all_plain-location_text :
    (f : File) (line : ℕ) → plain_file f ≡ true → all_plain (location_text f line) ≡ true
all_plain-location_text none line h = refl
all_plain-location_text (some file) line h = rw (is_plain-place file line h)

all_plain-allocated_text :
    (f : File) (line : ℕ) → plain_file f ≡ true → all_plain (allocated_text f line) ≡ true
all_plain-allocated_text none line h = refl
all_plain-allocated_text (some file) line h = rw (is_plain-place file line h)

module _ (pointer : ℕ → List ℕ) (plain_pointer : (a : ℕ) → is_plain (pointer a) ≡ true) where
  all_plain-report_simple_text :
      (st : Stack) (kind : Kind) (addr size : ℕ) (is_write : Access) (file : File) (line : ℕ)
      → all_plain (trace_text st) ≡ true
      → plain_file file ≡ true
      → all_plain (report_simple_text pointer st kind addr size is_write file line) ≡ true
  unfolding report_simple_text
  all_plain-report_simple_text st kind addr size is_write file line trace named =
      let access : is_plain
            (access_text is_write ++ decimal size ++ codes " at " ++ pointer addr ++ 10 ∷ [])
          ≡ true =
        simp (is_plain-append, is_plain-decimal, is_plain-access_text, plain_pointer) in
      rw (is_plain-kind_text kind, access)
        (all_plain-append (location_text file line) (trace_text st)
          (all_plain-location_text file line named) trace)

  is_plain-region_text : (addr : ℕ) (b : Block) → is_plain (region_text pointer addr b) ≡ true
  unfolding region_text
  is_plain-region_text addr b =
      let freed : is_plain (if b.freed then codes " (freed)" else []) ≡ true =
        elim (Bool-cases b.freed) [ inl dead ↦ rw dead | inr live ↦ rw live ] in
      elim (Bool-cases (ltb addr b.user_addr)) [
        | inl early ↦ simp (early, freed, is_plain-append, is_plain-decimal, plain_pointer)
        | inr on ↦ elim (Bool-cases (leb (u64 (b.user_addr + b.user_size)) addr)) [
          | inl past ↦ simp (on, past, freed, is_plain-append, is_plain-decimal, plain_pointer)
          | inr inside ↦ simp (on, inside, freed, is_plain-append, is_plain-decimal, plain_pointer)
        ]
      ]

  -- A text report of a violation in a block, where no address, file name or frame prints an escape
  -- character: the coloured report without its escape sequences is the report without colour.
  pub without_colour-report_text :
      (st : Stack) (kind : Kind) (addr size : ℕ) (is_write : Access) (file : File) (line : ℕ)
      (b : Block)
      → all_plain (trace_text st) ≡ true
      → plain_file file ≡ true
      → plain_file b.alloc_file ≡ true
      → without_colour false
          (print true (report_text pointer st kind addr size is_write file line b))
        ≡ print false (report_text pointer st kind addr size is_write file line b)
  unfolding report_text
  without_colour-report_text st kind addr size is_write file line b trace named owned =
      without_colour-print (report_text pointer st kind addr size is_write file line b) (
        all_plain-append (report_simple_text pointer st kind addr size is_write file line)
          (put (region_text pointer addr b) ∷ allocated_text b.alloc_file b.alloc_line)
          (all_plain-report_simple_text st kind addr size is_write file line trace named)
          (rw (is_plain-region_text addr b)
            (all_plain-allocated_text b.alloc_file b.alloc_line owned)))
