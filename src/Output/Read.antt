-- ===== src/Output/Read.antt =====
-- A reader of JSON strings, as the standard gives them, by which json_str is judged.
use redzone.Prelude.{
  ℕ, zero, suc, ◌+◌, ◌-◌, ◌*◌, ◌&&◌, Option, none, some, List, [], ◌∷◌, ltb, leb, ◌==◌,
  if◌then◌else◌,
}

-- Between characters, behind a backslash, or with so many hexadecimal digits to come
pub data Mode : Type 0 where
  plain backslash : Mode
  hex : (left value : ℕ) → Mode

abbrev pub short_escape : ℕ → Option ℕ
short_escape c =
    if c == 34
    then some 34
    else if c == 92
    then some 92
    else if c == 110
    then some 10
    else if c == 114
    then some 13
    else if c == 116
    then some 9
    else none

abbrev pub hex_value : ℕ → Option ℕ
hex_value c =
    if leb 48 c && leb c 57
    then some (c - 48)
    else if leb 97 c && leb c 102
    then some (c - 87)
    else none

abbrev pub with_char : ℕ → Option (List ℕ × List ℕ) → Option (List ℕ × List ℕ)
with_char c none = none
with_char c (some (s, rest)) = some (c ∷ s, rest)

-- The characters up to the closing quote, and what follows it; a control character is refused.
unfoldable pub read_chars : Mode → List ℕ → Option (List ℕ × List ℕ)
read_chars m [] = none
read_chars plain (c ∷ cs) =
    let more = with_char c (read_chars plain cs) in
    let escape = read_chars backslash cs in
    if c == 34 then some ([], cs) else if c == 92 then escape else if ltb c 32 then none else more
read_chars backslash (c ∷ cs) =
    let digits = read_chars (hex 4 0) cs in
    let rest = read_chars plain cs in
    if c == 117 then digits else elim (short_escape c) [ none ↦ none | some x ↦ with_char x rest ]
read_chars (hex zero value) (c ∷ cs) = none
read_chars (hex (suc left) value) (c ∷ cs) = elim (hex_value c) [
  | none ↦ none
  | some d ↦
      let rest = read_chars plain cs in
      let more = read_chars (hex left (value * 16 + d)) cs in
      if left == 0 then with_char (value * 16 + d) rest else more
]

unfoldable pub read_string : List ℕ → Option (List ℕ × List ℕ)
read_string [] = none
read_string (c ∷ cs) = if c == 34 then read_chars plain cs else none
