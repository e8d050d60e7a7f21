-- ===== src/Pass/Ignore.antt =====
-- src/RedzonePass.cpp, the ignore-list: loadIgnorelist, on the lines of the file, and globMatchAny.
-- A line, a pattern and a name are the lists of their bytes; fnmatch is libc's.
use redzone.Prelude.{ℕ, Bool, false, ◌||◌, some, List, [], ◌∷◌, ◌++◌, ◌==◌, if◌then◌else◌}
use redzone.Leaks.{strip_prefix}

abbrev pub Bytes : Type 0
Bytes = List ℕ

-- find_first_not_of(" \t")
unfoldable pub drop_blanks : Bytes → Bytes
drop_blanks [] = []
drop_blanks (c ∷ cs) = let rest = drop_blanks cs in if c == 32 || c == 9 then rest else c ∷ cs

-- find_last_not_of(" \t\r")
unfoldable pub cut_end : Bytes → Bytes
cut_end [] = []
cut_end (c ∷ cs) = elim (cut_end cs) [
  | [] ↦ if c == 32 || c == 9 || c == 13 then [] else c ∷ []
  | d ∷ ds ↦ c ∷ d ∷ ds
]

-- The two kinds of rule, with their patterns
pub record Rules : Type 0 where
  pub fun_patterns : List Bytes
  pub src_patterns : List Bytes

-- "fun:" and "src:"
abbrev fun_prefix : Bytes
fun_prefix = 102 ∷ 117 ∷ 110 ∷ 58 ∷ []

abbrev src_prefix : Bytes
src_prefix = 115 ∷ 114 ∷ 99 ∷ 58 ∷ []

-- A trimmed line: one of the prefixes, and a pattern that is not empty.
unfoldable pub add_rule : Bytes → Rules → Rules
add_rule s r = elim (strip_prefix fun_prefix s) [
  | some (p ∷ ps) ↦ record r { fun_patterns = r.fun_patterns ++ (p ∷ ps) ∷ [] }
  | _ ↦ elim (strip_prefix src_prefix s) [
    | some (p ∷ ps) ↦ record r { src_patterns = r.src_patterns ++ (p ∷ ps) ∷ [] }
    | _ ↦ r
  ]
]

-- One line of the file: blank lines and comments are skipped.
unfoldable pub rule_line : Bytes → Rules → Rules
rule_line line r = elim (drop_blanks line) [
  | [] ↦ r
  | c ∷ cs ↦ if c == 35 then r else add_rule (cut_end (c ∷ cs)) r
]

-- loadIgnorelist, on the lines that are left
unfoldable pub load_ignorelist : List Bytes → Rules → Rules
load_ignorelist [] r = r
load_ignorelist (line ∷ lines) r = load_ignorelist lines (rule_line line r)

-- globMatchAny; `fnmatch p s` says whether fnmatch returns 0.
unfoldable pub glob_match_any : (Bytes → Bytes → Bool) → List Bytes → Bytes → Bool
glob_match_any fnmatch [] s = false
glob_match_any fnmatch (p ∷ ps) s = fnmatch p s || glob_match_any fnmatch ps s

-- Are the accesses of a function left alone? By its attribute, by its source file, or by its name.
unfoldable pub skips : (Bytes → Bytes → Bool) → Rules → (source name : Bytes) → Bool → Bool
skips fnmatch r source name opts_out =
    opts_out
    || glob_match_any fnmatch r.src_patterns source
    || glob_match_any fnmatch r.fun_patterns name
