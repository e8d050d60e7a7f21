-- ===== src/Leaks.antt =====
-- runtime/redzone_rt.c, the leak suppressions and the leak report at exit. A C string is the list
-- of its bytes. The lines of the suppression file are what fgets yields.
pub mod Totals
pub mod Quiet
use redzone.Prelude.{
  ℕ, zero, ◌+◌, Bool, true, false, not, ◌&&◌, ◌||◌, Option, none, some, List, [], ◌∷◌, ◌++◌, ◌==◌,
  if◌then◌else◌, length, update,
}
use redzone.Prelude.Bits.{u64}
use redzone.Report.{File, Finding, memory_leak, not_applicable}
use redzone.Table.{Block}

abbrev pub Text : Type 0
Text = List ℕ

-- Space and tab
abbrev is_blank : ℕ → Bool
is_blank c = c == 32 || c == 9

-- Line feed and carriage return
abbrev is_line_end : ℕ → Bool
is_line_end c = c == 10 || c == 13

unfoldable pub skip_blanks : Text → Text
skip_blanks [] = []
skip_blanks (c ∷ cs) = let rest = skip_blanks cs in if is_blank c then rest else c ∷ cs

-- The trailing blanks and line ends are cut off.
unfoldable pub trim_end : Text → Text
trim_end [] = []
trim_end (c ∷ cs) = elim (trim_end cs) [
  | [] ↦ if is_blank c || is_line_end c then [] else c ∷ []
  | d ∷ ds ↦ c ∷ d ∷ ds
]

-- What follows a prefix, if the text has it.
unfoldable pub strip_prefix : Text → Text → Option Text
strip_prefix [] s = some s
strip_prefix (p ∷ ps) [] = none
strip_prefix (p ∷ ps) (c ∷ cs) = let rest = strip_prefix ps cs in if p == c then rest else none

-- "leak:"
abbrev leak_prefix : Text
leak_prefix = 108 ∷ 101 ∷ 97 ∷ 107 ∷ 58 ∷ []

-- The pattern of one line of the suppression file, if the line is a rule.
unfoldable pub rule_of : Text → Option Text
rule_of line = elim (skip_blanks line) [
  | [] ↦ none
  | c ∷ cs ↦
      if c == 35 || is_line_end c
      then none
      else elim (strip_prefix leak_prefix (trim_end (c ∷ cs))) [
        | none ↦ none
        | some [] ↦ none
        | some (p ∷ ps) ↦ some (p ∷ ps)
      ]
]

-- load_suppressions, on the lines that are left: `grow n` says whether the list can be reallocated
-- to `n` entries, and `dup` whether a pattern can be copied.
unfoldable pub load_suppressions : (ℕ → Bool) → (Text → Bool) → List Text → List Text → List Text
load_suppressions grow dup supp [] = supp
load_suppressions grow dup supp (line ∷ lines) = elim (rule_of line) [
  | none ↦ load_suppressions grow dup supp lines
  | some pat ↦
      let rest = load_suppressions grow dup (if dup pat then supp ++ pat ∷ [] else supp) lines in
      if grow (length supp + 1) then rest else supp
]

unfoldable pub starts_with : Text → Text → Bool
starts_with s p = elim (strip_prefix p s) [ none ↦ false | some _ ↦ true ]

-- strstr
unfoldable pub contains : Text → Text → Bool
contains [] p = starts_with [] p
contains (c ∷ cs) p = starts_with (c ∷ cs) p || contains cs p

unfoldable pub any_in : Text → List Text → Bool
any_in file [] = false
any_in file (p ∷ ps) = contains file p || any_in file ps

unfoldable pub leak_suppressed : List Text → File → Bool
leak_suppressed supp none = false
leak_suppressed supp (some file) = any_in file supp

unfoldable pub is_unsuppressed_leak : List Text → Block → Bool
is_unsuppressed_leak supp b = not b.freed && not (leak_suppressed supp b.alloc_file)

-- The first loop of report_leaks: how many leaks, and their bytes.
unfoldable pub leaked : List Text → List Block → ℕ × ℕ
leaked supp [] = (0, 0)
leaked supp (b ∷ bs) =
    let rest = leaked supp bs in
    if is_unsuppressed_leak supp b then (u64 (rest.0 + 1), u64 (rest.1 + b.user_size)) else rest

unfoldable pub text_eq : Text → Text → Bool
text_eq [] [] = true
text_eq [] (d ∷ ds) = false
text_eq (c ∷ cs) [] = false
text_eq (c ∷ cs) (d ∷ ds) = c == d && text_eq cs ds

-- Equal pointers, NULL among them, or equal strings
unfoldable pub same_file : File → File → Bool
same_file none none = true
same_file none (some g) = false
same_file (some f) none = false
same_file (some f) (some g) = text_eq f g

abbrev pub same_site : Block → Block → Bool
same_site o b = o.alloc_line == b.alloc_line && same_file o.alloc_file b.alloc_file

-- One line of the text report.
pub record SiteLine : Type 0 where
  pub count : ℕ
  pub site_bytes : ℕ
  pub site_file : File
  pub site_line : ℕ

-- What a site has gathered, and which blocks are folded into an earlier line.
pub record Folded : Type 0 where
  pub done : ℕ → Bool
  pub gathered : ℕ
  pub gathered_bytes : ℕ

-- One round of the inner loop, for the block at index `j`.
unfoldable pub fold_one : List Text → Block → Block → ℕ → Folded → Folded
fold_one supp b o j acc =
    if acc.done j || not (is_unsuppressed_leak supp o)
    then acc
    else if same_site o b
    then record {
      done = update acc.done j true;
      gathered = u64 (acc.gathered + 1);
      gathered_bytes = u64 (acc.gathered_bytes + o.user_size);
    }
    else acc

-- The inner loop, over the blocks from index `j` on.
unfoldable pub fold_site : List Text → Block → List Block → ℕ → Folded → Folded
fold_site supp b [] j acc = acc
fold_site supp b (o ∷ os) j acc = fold_site supp b os (j + 1) (fold_one supp b o j acc)

-- What the site of a block gathers from the blocks after it.
unfoldable pub site_of : List Text → Bool → Block → List Block → ℕ → (ℕ → Bool) → Folded
site_of supp false b bs i done = record { done = done; gathered = 1; gathered_bytes = b.user_size }
site_of supp true b bs i done =
    fold_site supp b bs (i + 1) (record { done = done; gathered = 1; gathered_bytes = b.user_size })

-- The outer loop from index `i` on; `marks` says whether the array `done` could be allocated.
unfoldable pub site_lines : List Text → Bool → List Block → ℕ → (ℕ → Bool) → List SiteLine
site_lines supp marks [] i done = []
site_lines supp marks (b ∷ bs) i done =
    let acc = site_of supp marks b bs i done in
    let skip = site_lines supp marks bs (i + 1) done in
    let rest = site_lines supp marks bs (i + 1) acc.done in
    if not (is_unsuppressed_leak supp b) || marks && done i
    then skip
    else record {
      count = acc.gathered;
      site_bytes = acc.gathered_bytes;
      site_file = b.alloc_file;
      site_line = b.alloc_line;
    }
      ∷ rest

-- The findings of the JSON and the SARIF report.
unfoldable pub leak_findings : List Text → List Block → List Finding
leak_findings supp [] = []
leak_findings supp (b ∷ bs) =
    let rest = leak_findings supp bs in
    if is_unsuppressed_leak supp b
    then record {
      kind = memory_leak;
      is_write = not_applicable;
      size = b.user_size;
      addr = b.user_addr;
      file = b.alloc_file;
      line = b.alloc_line;
      region = none;
      with_stack = false;
    }
      ∷ rest
    else rest

-- REDZONE_FORMAT
pub data Format : Type 0 where
  text json sarif : Format

-- What the program does at exit: end as it would, or print and exit with status 1.
pub data AtExit : Type 0 where
  quiet : AtExit
  as_findings : List Finding → AtExit
  as_text : (leaks bytes : ℕ) → List SiteLine → AtExit

-- `room` says whether calloc gives the array of the format, of findings or of marks.
unfoldable pub report_leaks : (on room : Bool) → Format → List Text → List Block → AtExit
report_leaks on room fmt supp bs =
    if not on
    then quiet
    else let (leaks, bytes) = leaked supp bs in
      if leaks == 0 then quiet else elim fmt [
        | text ↦ as_text leaks bytes (site_lines supp room bs 0 (λ _. false))
        | json ↦ as_findings (leak_findings supp bs)
        | sarif ↦ as_findings (if room then leak_findings supp bs else [])
      ]
