-- ===== src/Output.antt =====
-- runtime/redzone_rt.c, the machine-readable output: json_str and json_finding. Text is the list of its
-- bytes. A stack trace is the list of its frames' texts, which backtrace_symbols or the symbolizer
-- give; it is cut and trimmed here.
pub mod Read
pub mod Strings
pub mod Lines
pub mod Text
pub mod Plain
pub mod Sarif
pub mod Choices
use redzone.Prelude.{
  ℕ, zero, suc, ◌+◌, ◌*◌, ◌/◌, ◌%◌, Bool, true, false, not, ◌&&◌, ◌||◌, Option, none, some, List,
  [], ◌∷◌, ◌++◌, ltb, leb, ◌==◌, if◌then◌else◌, codes,
}
use redzone.Report.{
  File, Kind, heap_buffer_overflow, use_after_free, stack_buffer_overflow, global_buffer_overflow,
  buffer_overflow, double_free, invalid_free, memory_leak, Access, read, write, not_applicable,
  Region, Finding,
}
use redzone.Leaks.{text_eq, Format, text, json, sarif}

-- The error kinds as the source spells them
abbrev pub kind_text : Kind → List ℕ
kind_text heap_buffer_overflow = codes "heap-buffer-overflow"
kind_text use_after_free = codes "use-after-free"
kind_text stack_buffer_overflow = codes "stack-buffer-overflow"
kind_text global_buffer_overflow = codes "global-buffer-overflow"
kind_text buffer_overflow = codes "buffer-overflow"
kind_text double_free = codes "double-free"
kind_text invalid_free = codes "invalid-free"
kind_text memory_leak = codes "memory-leak"

-- A digit of %x
abbrev pub digit : ℕ → ℕ
digit d = if ltb d 10 then 48 + d else 87 + d

-- The digits of a number in a base
unfoldable pub digits : (fuel base n : ℕ) → List ℕ → List ℕ
digits zero base n acc = acc
digits (suc fuel) base n acc =
    let rest = digits fuel base (n / base) (digit (n % base) ∷ acc) in
    if ltb n base then digit n ∷ acc else rest

-- %zu, and %d for a line, and %llx: a 64-bit number has at most 20 digits.
unfoldable pub decimal : ℕ → List ℕ
decimal n = digits 20 10 n []

unfoldable pub hexadecimal : ℕ → List ℕ
hexadecimal n = digits 16 16 n []

-- json_str: what is written for one byte
unfoldable pub escape : ℕ → List ℕ
escape c =
    if c == 34
    then 92 ∷ 34 ∷ []
    else if c == 92
    then 92 ∷ 92 ∷ []
    else if c == 10
    then 92 ∷ 110 ∷ []
    else if c == 13
    then 92 ∷ 114 ∷ []
    else if c == 9
    then 92 ∷ 116 ∷ []
    else if ltb c 32
    then 92 ∷ 117 ∷ 48 ∷ 48 ∷ digit (c / 16) ∷ digit (c % 16) ∷ []
    else c ∷ []

unfoldable pub escaped : List ℕ → List ℕ
escaped [] = []
escaped (c ∷ cs) = escape c ++ escaped cs

-- json_str
unfoldable pub json_str : List ℕ → List ℕ
json_str s = 34 ∷ escaped s ++ 34 ∷ []

abbrev pub file_json : List ℕ → ℕ → List ℕ
file_json file line =
    codes "{\"file\":" ++ json_str file ++ codes ",\"line\":" ++ decimal line ++ codes "}"

-- strstr(sym, "__redzone_") as a test of the frames, which the symbols' texts decide
unfoldable pub user_frames : (List ℕ → Bool) → List (List ℕ) → List (List ℕ)
user_frames is_abi [] = []
user_frames is_abi (s ∷ syms) =
    let rest = user_frames is_abi syms in
    if any_abi syms then rest else if is_abi s then syms else s ∷ syms
  where
    any_abi : List (List ℕ) → Bool
    any_abi [] = false
    any_abi (x ∷ xs) = is_abi x || any_abi xs

unfoldable pub skip_spaces : List ℕ → List ℕ
skip_spaces [] = []
skip_spaces (c ∷ cs) = let rest = skip_spaces cs in if c == 32 then rest else c ∷ cs

unfoldable pub skip_digits : List ℕ → List ℕ
skip_digits [] = []
skip_digits (c ∷ cs) = let rest = skip_digits cs in if leb 48 c && leb c 57 then rest else c ∷ cs

-- trim_frame
unfoldable pub trim_frame : List ℕ → List ℕ
trim_frame s = elim (skip_spaces s) [
  | [] ↦ []
  | c ∷ cs ↦ if leb 48 c && leb c 57 then skip_spaces (skip_digits (c ∷ cs)) else c ∷ cs
]

-- What the symbols' texts decide: strstr(sym, "__redzone_"), and what symbolize_frame finds, which is
-- none for every frame if symbolization is off
pub record Symbols : Type 0 where
  pub is_abi : List ℕ → Bool
  pub symbolized : List ℕ → Option (List ℕ)

abbrev pub frame_shown : Symbols → List ℕ → List ℕ
frame_shown st s = elim (st.symbolized s) [ none ↦ trim_frame s | some txt ↦ txt ]

unfoldable pub json_frames : Symbols → List (List ℕ) → List ℕ
json_frames st [] = []
json_frames st (s ∷ []) = json_str (frame_shown st s)
json_frames st (s ∷ t ∷ syms) =
    json_str (frame_shown st s) ++ codes "," ++ json_frames st (t ∷ syms)

-- print_trace_json
unfoldable pub trace_json : Symbols → List (List ℕ) → List ℕ
trace_json st syms = elim (user_frames st.is_abi syms) [
  | [] ↦ []
  | s ∷ frames ↦ codes ",\"stack\":[" ++ json_frames st (s ∷ frames) ++ codes "]"
]

-- `is_write`: an access is a write or a read, or there is none.
abbrev pub access_json : Access → List ℕ
access_json write = codes ",\"access\":\"write\""
access_json read = codes ",\"access\":\"read\""
access_json not_applicable = []

-- What several writes put out, one after the other
unfoldable pub joined : List (List ℕ) → List ℕ
joined [] = []
joined (p ∷ ps) = p ++ joined ps

abbrev pub allocated_json : File → ℕ → List ℕ
allocated_json none line = []
allocated_json (some file) line = codes ",\"allocated\":" ++ file_json file line

abbrev pub region_json : Option Region → List ℕ
region_json none = []
region_json (some r) = joined (
    codes ",\"region\":{\"size\":"
    ∷ decimal r.region_size
    ∷ (if r.freed then codes ",\"freed\":true" else [])
    ∷ allocated_json r.alloc_file r.alloc_line
    ∷ codes "}"
    ∷ [])

abbrev pub address_json : ℕ → List ℕ
address_json a = if a == 0 then [] else codes ",\"address\":\"0x" ++ hexadecimal a ++ codes "\""

abbrev pub location_json : File → ℕ → List ℕ
location_json none line = []
location_json (some file) line = codes ",\"location\":" ++ file_json file line

abbrev pub finding_parts : Symbols → List (List ℕ) → Finding → List (List ℕ)
finding_parts st syms fd =
    codes "{\"tool\":\"redzone\",\"error\":"
    ∷ json_str (kind_text fd.kind)
    ∷ access_json fd.is_write
    ∷ codes ",\"size\":"
    ∷ decimal fd.size
    ∷ address_json fd.addr
    ∷ location_json fd.file fd.line
    ∷ region_json fd.region
    ∷ (if fd.with_stack then trace_json st syms else [])
    ∷ codes "}"
    ∷ []

-- json_finding
unfoldable pub json_finding : Symbols → List (List ℕ) → Finding → List ℕ
json_finding st syms fd = joined (finding_parts st syms fd)
