-- ===== src/Output/Lines.antt =====
-- JSON findings are written one on a line (runtime/redzone_rt.c, json_finding).
use redzone.Prelude.{
  ℕ, zero, suc, ◌/◌, ◌%◌, ◌≡◌, refl, arith, inl, inr, Bool, true, false, ◌&&◌, Option, none, some,
  List, [], ◌∷◌, ◌++◌, ltb, leb, ◌==◌, if◌then◌else◌, codes, Bool-cases,
}
use redzone.Report.{File, Access, read, write, not_applicable, Region, Finding}
use redzone.Output.{
  Symbols, frame_shown, digit, digits, decimal, hexadecimal, escape, escaped, json_str, kind_text,
  file_json, user_frames, json_frames, trace_json, access_json, joined, allocated_json, region_json,
  address_json, location_json, finding_parts, json_finding,
}

-- No control character, so no line break either
abbrev pub one_line : List ℕ → Bool
one_line [] = true
one_line (c ∷ cs) = leb 32 c && one_line cs

one_line-append :
    (xs ys : List ℕ) → one_line xs ≡ true → one_line ys ≡ true → one_line (xs ++ ys) ≡ true
one_line-append [] ys hx hy = hy
one_line-append (x ∷ xs) ys hx hy =
    ground (arith, one_line-append xs ys (ground (arith, hx)) hy, hx)

one_line-digits :
    (fuel base n : ℕ) (acc : List ℕ)
    → one_line acc ≡ true
    → one_line (digits fuel base n acc) ≡ true
unfolding digits
one_line-digits zero base n acc h = h
one_line-digits (suc fuel) base n acc h = elim (Bool-cases (ltb n base)) [
  | inl last ↦ rw last (ground (arith, h))
  | inr more ↦
      rw more (one_line-digits fuel base (n / base) (digit (n % base) ∷ acc) (ground (arith, h)))
]

one_line-escape : (c : ℕ) → one_line (escape c) ≡ true
unfolding escape
one_line-escape c = ground arith

one_line-escaped : (s : List ℕ) → one_line (escaped s) ≡ true
unfolding escaped
one_line-escaped [] = refl
one_line-escaped (c ∷ s) =
    one_line-append (escape c) (escaped s) (one_line-escape c) (one_line-escaped s)

one_line-json_str : (s : List ℕ) → one_line (json_str s) ≡ true
unfolding json_str
one_line-json_str s = one_line-append (escaped s) (34 ∷ []) (one_line-escaped s) refl

one_line-decimal : (n : ℕ) → one_line (decimal n) ≡ true
unfolding decimal
one_line-decimal n = one_line-digits 20 10 n [] refl

one_line-hexadecimal : (n : ℕ) → one_line (hexadecimal n) ≡ true
unfolding hexadecimal
one_line-hexadecimal n = one_line-digits 16 16 n [] refl

-- A text, then a rest that is on the line
one_line-text :
    (before s after : List ℕ)
    → one_line before ≡ true
    → one_line s ≡ true
    → one_line after ≡ true
    → one_line (before ++ s ++ after) ≡ true
one_line-text before s after hb hs ha =
    one_line-append (before ++ s) after (one_line-append before s hb hs) ha

one_line-file_json : (file : List ℕ) (line : ℕ) → one_line (file_json file line) ≡ true
one_line-file_json file line =
    one_line-text (codes "{\"file\":" ++ json_str file ++ codes ",\"line\":") (decimal line)
      (codes "}")
      (one_line-text (codes "{\"file\":") (json_str file) (codes ",\"line\":") refl
        (one_line-json_str file) refl)
      (one_line-decimal line) refl

one_line-json_frames : (st : Symbols) (syms : List (List ℕ)) → one_line (json_frames st syms) ≡ true
unfolding json_frames
one_line-json_frames st [] = refl
one_line-json_frames st (s ∷ []) = one_line-json_str (frame_shown st s)
one_line-json_frames st (s ∷ t ∷ syms) =
    one_line-text (json_str (frame_shown st s)) (codes ",") (json_frames st (t ∷ syms))
      (one_line-json_str (frame_shown st s)) refl (one_line-json_frames st (t ∷ syms))

one_line-trace_json : (st : Symbols) (syms : List (List ℕ)) → one_line (trace_json st syms) ≡ true
unfolding trace_json
one_line-trace_json st syms = go (user_frames st.is_abi syms)
  where
    go :
        (frames : List (List ℕ))
        → one_line (elim frames [
          | [] ↦ []
          | s ∷ fs ↦ codes ",\"stack\":[" ++ json_frames st (s ∷ fs) ++ codes "]"
        ])
          ≡ true
    go [] = refl
    go (s ∷ fs) =
        one_line-text (codes ",\"stack\":[") (json_frames st (s ∷ fs)) (codes "]") refl
          (one_line-json_frames st (s ∷ fs)) refl

one_line-access_json : (a : Access) → one_line (access_json a) ≡ true
one_line-access_json read = refl
one_line-access_json write = refl
one_line-access_json not_applicable = refl

abbrev all_one_line : List (List ℕ) → Bool
all_one_line [] = true
all_one_line (p ∷ ps) = one_line p && all_one_line ps

one_line-joined : (ps : List (List ℕ)) → all_one_line ps ≡ true → one_line (joined ps) ≡ true
unfolding joined
one_line-joined [] h = refl
one_line-joined (p ∷ ps) h =
    one_line-append p (joined ps) (ground (arith, h)) (one_line-joined ps (ground (arith, h)))

one_line-optional :
    (b : Bool) (s : List ℕ) → one_line s ≡ true → one_line (if b then s else []) ≡ true
one_line-optional true s h = h
one_line-optional false s h = refl

one_line-allocated_json : (f : File) (line : ℕ) → one_line (allocated_json f line) ≡ true
one_line-allocated_json none line = refl
one_line-allocated_json (some file) line =
    one_line-append (codes ",\"allocated\":") (file_json file line) refl
      (one_line-file_json file line)

one_line-location_json : (f : File) (line : ℕ) → one_line (location_json f line) ≡ true
one_line-location_json none line = refl
one_line-location_json (some file) line =
    one_line-append (codes ",\"location\":") (file_json file line) refl
      (one_line-file_json file line)

one_line-address_json : (a : ℕ) → one_line (address_json a) ≡ true
one_line-address_json a = elim (Bool-cases (a == 0)) [
  | inl e ↦ rw e
  | inr e ↦ rw e (
      one_line-text (codes ",\"address\":\"0x") (hexadecimal a) (codes "\"") refl
        (one_line-hexadecimal a) refl)
]

one_line-region_json : (r : Option Region) → one_line (region_json r) ≡ true
one_line-region_json none = refl
one_line-region_json (some r) = one_line-joined _ (
    rw (
      one_line-decimal r.region_size,
      one_line-optional r.freed (codes ",\"freed\":true") refl,
      one_line-allocated_json r.alloc_file r.alloc_line,
    ))

-- What json_finding writes for any finding, with any file names and any stack trace: and with any
-- symbolizer: it holds no byte below 32, so that each finding, which the caller ends with a line break,
-- is one line.
pub one_line-json_finding :
    (st : Symbols) (syms : List (List ℕ)) (fd : Finding) → one_line (json_finding st syms fd) ≡ true
unfolding json_finding
one_line-json_finding st syms fd = one_line-joined (finding_parts st syms fd) (
    rw (
      one_line-json_str (kind_text fd.kind),
      one_line-access_json fd.is_write,
      one_line-decimal fd.size,
      one_line-address_json fd.addr,
      one_line-location_json fd.file fd.line,
      one_line-region_json fd.region,
      one_line-optional fd.with_stack (trace_json st syms) (one_line-trace_json st syms),
    ))
