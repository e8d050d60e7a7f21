-- ===== src/Tests/Outputs.antt =====
-- The machine-readable output of a finding.
use redzone.Prelude.{ℕ, ◌≡◌, refl, true, false, none, some, List, [], ◌∷◌, ◌++◌, codes}
use redzone.Report.{heap_buffer_overflow, use_after_free, write, Finding}
use redzone.Table.{Block}
use redzone.Output.{
  Symbols, digits, decimal, hexadecimal, escape, escaped, json_str, skip_spaces, skip_digits,
  trim_frame, user_frames, json_frames, trace_json, joined, json_finding,
}
use redzone.Output.Read.{read_string}
use redzone.Output.Strings.{read_string-json_str}
use redzone.Output.Lines.{one_line, one_line-json_finding}
use redzone.Leaks.{json, sarif}
use redzone.Output.Sarif.{sarif_message, emit_finding}
use redzone.Output.Choices.{rz_format, rz_color_on, rz_symbolize_on}
use redzone.Output.Text.{
  Span, col, print, frame_text, frame_spans, Stack, trace_text, report_simple_text, region_text,
  report_text,
}
use redzone.Output.Plain.{
  without_colour, all_plain, is_plain-hexadecimal, without_colour-report_text,
}

-- A quote, a line break and a bell
abbrev odd_name : List ℕ
odd_name = 97 ∷ 34 ∷ 10 ∷ 7 ∷ []

read_string-json_str_example : read_string (json_str odd_name ++ 44 ∷ []) ≡ some (odd_name, 44 ∷ [])
read_string-json_str_example = read_string-json_str odd_name (44 ∷ [])

odd_name_written : json_str odd_name ≡ codes "\"a\\\"\\n\\u0007\""
unfolding json_str escaped escape
odd_name_written = refl

abbrev overflow : Finding
overflow = record {
  kind = heap_buffer_overflow;
  is_write = write;
  size = 4;
  addr = 0x1f0;
  file = some odd_name;
  line = 12;
  region =
      some (record { region_size = 20; freed = false; alloc_file = some odd_name; alloc_line = 7 });
  with_stack = true;
}

abbrev no_abi : Symbols
no_abi = record { is_abi = λ s. false; symbolized = λ s. none }

one_line-json_finding_example :
    one_line (json_finding no_abi (codes "0  main + 4" ∷ []) overflow) ≡ true
one_line-json_finding_example = one_line-json_finding no_abi (codes "0  main + 4" ∷ []) overflow

abbrev plain_finding : Finding
plain_finding = record overflow { file = some (codes "a.c"); region = none }

plain_finding_written :
    json_finding no_abi (codes "0  main + 4" ∷ []) plain_finding
    ≡ codes
        "{\"tool\":\"redzone\",\"error\":\"heap-buffer-overflow\",\"access\":\"write\",\"size\":4,"
      ++ codes "\"address\":\"0x1f0\",\"location\":{\"file\":\"a.c\",\"line\":12},"
      ++ codes "\"stack\":[\"main + 4\"]}"
unfolding json_finding joined decimal hexadecimal digits json_str escaped escape trace_json
    user_frames json_frames trim_frame skip_spaces skip_digits
plain_finding_written = refl

-- Four bytes after a freed block, with one frame and colours
abbrev pointer : ℕ → List ℕ
pointer a = codes "0x" ++ hexadecimal a

abbrev one_frame : Stack
one_frame = record {
  is_abi = no_abi.is_abi;
  sym_on = false;
  symbolize_frame = λ _. none;
  syms = some (codes "0  main + 4" ∷ []);
}

abbrev freed_block : Block
freed_block = record {
  real_base = 0x1d0;
  total_size = 52;
  user_addr = 0x1e0;
  user_size = 20;
  freed = true;
  alloc_file = some (codes "a.c");
  alloc_line = 7;
}

abbrev coloured : List Span
coloured =
    report_text pointer one_frame use_after_free 0x1f8 4 write (some (codes "b.c")) 12 freed_block

one_frame_plain : all_plain (trace_text one_frame) ≡ true
unfolding trace_text frame_spans frame_text decimal digits trim_frame skip_spaces skip_digits
    user_frames
one_frame_plain = refl

without_colour-report_text_example :
    without_colour false (print true coloured) ≡ print false coloured
without_colour-report_text_example =
    without_colour-report_text pointer is_plain-hexadecimal one_frame use_after_free 0x1f8 4 write
      (some (codes "b.c")) 12 freed_block one_frame_plain refl refl

plain_report :
    print false coloured
    ≡ codes "==redzone ERROR: use-after-free\n  WRITE of size 4 at 0x1f8\n    at b.c:12\n"
      ++ codes "    #stack (most recent call first):\n    #0 main + 4\n"
      ++ codes "  4 byte(s) after a 20-byte region [0x1e0, 0x1f4) (freed)\n"
      ++ codes "    allocated at a.c:7\n"
unfolding print col report_text report_simple_text region_text trace_text frame_spans frame_text
    decimal hexadecimal digits trim_frame skip_spaces skip_digits user_frames
plain_report = refl

-- NO_COLOR holds against a terminal, and REDZONE_COLOR=always against NO_COLOR.
colours_chosen :
    (rz_color_on none (some []) true ≡ false)
    × (rz_color_on (some (codes "always")) (some []) false ≡ true)
unfolding rz_color_on redzone.Leaks.text_eq
colours_chosen = (refl, refl)

formats_chosen :
    (rz_format (some (codes "sarif")) ≡ sarif)
    × (rz_format (some (codes "json")) ≡ json)
    × (rz_symbolize_on (some (codes "0")) ≡ false)
unfolding rz_format rz_symbolize_on redzone.Leaks.text_eq
formats_chosen = (refl, refl, refl)

message_written : sarif_message overflow ≡ codes "WRITE of size 4 (heap-buffer-overflow)"
unfolding sarif_message decimal digits
message_written = refl

-- A JSON report ends its line.
json_emitted :
    emit_finding json no_abi [] plain_finding ≡ json_finding no_abi [] plain_finding ++ 10 ∷ []
unfolding emit_finding
json_emitted = refl
