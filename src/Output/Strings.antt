-- ===== src/Output/Strings.antt =====
-- What json_str writes (runtime/redzone_rt.c).
use redzone.Prelude.{
  ℕ, suc, ◌+◌, ◌*◌, ◌/◌, ◌%◌, ◌<◌, ◌≡◌, ◌∙◌, refl, arith, inl, inr, false, some, List, [], ◌∷◌,
  ◌++◌, ltb, ◌==◌, if◌then◌else◌, Bool-cases,
}
use mathlib.Core.List.{append_assoc}
use redzone.Output.{digit, escape, escaped, json_str}
use redzone.Output.Read.{plain, hex, hex_value, with_char, read_chars, read_string}

hex_value-digit : (d : ℕ) → d < 16 → hex_value (digit d) ≡ some d
hex_value-digit d lt = ground arith

read_chars-digit :
    (left value d : ℕ) (rest : List ℕ)
    → d < 16
    → read_chars (hex (suc left) value) (digit d ∷ rest) ≡ (
        if left == 0
        then with_char (value * 16 + d) (read_chars plain rest)
        else read_chars (hex left (value * 16 + d)) rest)
unfolding read_chars
read_chars-digit left value d rest lt = rw (hex_value-digit d lt, read_chars)

first_zeros :
    (rest : List ℕ) → read_chars plain (92 ∷ 117 ∷ 48 ∷ 48 ∷ rest) ≡ read_chars (hex 2 0) rest
unfolding read_chars
first_zeros rest = refl

closing : (rest : List ℕ) → read_chars plain (34 ∷ rest) ≡ some ([], rest)
unfolding read_chars
closing rest = refl

-- \u00 and two digits
read_chars-control :
    (c : ℕ) (rest : List ℕ)
    → c < 32
    → read_chars plain (92 ∷ 117 ∷ 48 ∷ 48 ∷ digit (c / 16) ∷ digit (c % 16) ∷ rest)
      ≡ with_char c (read_chars plain rest)
read_chars-control c rest lt =
    let whole : (c / 16) * 16 + c % 16 ≡ c = omega arith in
    let high = read_chars-digit 1 0 (c / 16) (digit (c % 16) ∷ rest) (omega arith) in
    let low = read_chars-digit 0 (c / 16) (c % 16) rest (omega arith) in
    let first : 0 * 16 + c / 16 ≡ c / 16 = omega arith in
    first_zeros (digit (c / 16) ∷ digit (c % 16) ∷ rest) ∙ high ∙ rw first (low ∙ rw whole)

-- The other forms
quote : (rest : List ℕ) → read_chars plain (92 ∷ 34 ∷ rest) ≡ with_char 34 (read_chars plain rest)
unfolding read_chars
quote rest = refl

slash : (rest : List ℕ) → read_chars plain (92 ∷ 92 ∷ rest) ≡ with_char 92 (read_chars plain rest)
unfolding read_chars
slash rest = refl

newline :
    (rest : List ℕ) → read_chars plain (92 ∷ 110 ∷ rest) ≡ with_char 10 (read_chars plain rest)
unfolding read_chars
newline rest = refl

return_char :
    (rest : List ℕ) → read_chars plain (92 ∷ 114 ∷ rest) ≡ with_char 13 (read_chars plain rest)
unfolding read_chars
return_char rest = refl

tab : (rest : List ℕ) → read_chars plain (92 ∷ 116 ∷ rest) ≡ with_char 9 (read_chars plain rest)
unfolding read_chars
tab rest = refl

literal :
    (c : ℕ) (rest : List ℕ)
    → (c == 34) ≡ false
    → (c == 92) ≡ false
    → ltb c 32 ≡ false
    → read_chars plain (c ∷ rest) ≡ with_char c (read_chars plain rest)
unfolding read_chars
literal c rest n1 n2 n3 = rw (n1, n2, n3)

-- One escaped byte is read back as that byte.
read_chars-escape :
    (c : ℕ) (rest : List ℕ)
    → read_chars plain (escape c ++ rest) ≡ with_char c (read_chars plain rest)
unfolding escape
read_chars-escape c rest = elim (Bool-cases (c == 34)) [
  | inl e ↦ let is : c ≡ 34 = ground (arith, e) in rw is (quote rest)
  | inr n1 ↦ elim (Bool-cases (c == 92)) [
    | inl e ↦ let is : c ≡ 92 = ground (arith, e) in rw is (slash rest)
    | inr n2 ↦ elim (Bool-cases (c == 10)) [
      | inl e ↦ let is : c ≡ 10 = ground (arith, e) in rw is (newline rest)
      | inr n3 ↦ elim (Bool-cases (c == 13)) [
        | inl e ↦ let is : c ≡ 13 = ground (arith, e) in rw is (return_char rest)
        | inr n4 ↦ elim (Bool-cases (c == 9)) [
          | inl e ↦ let is : c ≡ 9 = ground (arith, e) in rw is (tab rest)
          | inr n5 ↦ elim (Bool-cases (ltb c 32)) [
            | inl e ↦ rw (n1, n2, n3, n4, n5, e) (read_chars-control c rest (ground (arith, e)))
            | inr e ↦ rw (n1, n2, n3, n4, n5, e) (literal c rest n1 n2 e)
          ]
        ]
      ]
    ]
  ]
]

read_chars-escaped : (s rest : List ℕ) → read_chars plain (escaped s ++ 34 ∷ rest) ≡ some (s, rest)
unfolding escaped
read_chars-escaped [] rest = closing rest
read_chars-escaped (c ∷ s) rest =
    rw (append_assoc (escape c) (escaped s) (34 ∷ rest))
      (read_chars-escape c (escaped s ++ 34 ∷ rest) ∙ rw (read_chars-escaped s rest))

-- Whatever bytes a string has, and whatever follows it: a reader of JSON strings gets the string back
-- from what json_str writes, and stops behind it. So no file name or symbol can break the output.
pub read_string-json_str : (s rest : List ℕ) → read_string (json_str s ++ rest) ≡ some (s, rest)
unfolding read_string json_str
read_string-json_str s rest =
    rw (append_assoc (escaped s) (34 ∷ []) rest) (read_chars-escaped s rest)
