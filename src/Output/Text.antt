-- ===== src/Output/Text.antt =====
-- runtime/redzone_rt.c, the text reports: what report, report_simple, report_free_error and
-- report_leaks print when the format is text, colours and stack trace included. What %p prints for an
-- address and what the symbolizer says of a frame are arguments.
use redzone.Prelude.{
  ℕ, ◌+◌, ◌-◌, Bool, Option, none, some, List, [], ◌∷◌, ◌++◌, ltb, leb, if◌then◌else◌, codes,
}
use redzone.Prelude.Bits.{u64}
use redzone.Report.{File, Kind, Access, read, memory_leak}
use redzone.Table.{Block}
use redzone.Leaks.{SiteLine}
use redzone.Output.{kind_text, decimal, user_frames, trim_frame}

-- RZ_RED, RZ_CYAN, RZ_DIM, RZ_RESET
pub data Colour : Type 0 where
  red cyan dim reset : Colour

abbrev pub colour_code : Colour → List ℕ
colour_code red = 27 ∷ codes "[1;31m"
colour_code cyan = 27 ∷ codes "[36m"
colour_code dim = 27 ∷ codes "[2m"
colour_code reset = 27 ∷ codes "[0m"

-- col
unfoldable pub col : Bool → Colour → List ℕ
col on c = if on then colour_code c else []

-- What a format prints: text, and colours where col stands
pub data Span : Type 0 where
  put : List ℕ → Span
  paint : Colour → Span

-- The bytes that are written
unfoldable pub print : Bool → List Span → List ℕ
print on [] = []
print on (put s ∷ spans) = s ++ print on spans
print on (paint c ∷ spans) = col on c ++ print on spans

-- The text of a frame: what the symbolizer says if it is asked and can tell, or the frame's own
unfoldable pub frame_text : Bool → (List ℕ → Option (List ℕ)) → List ℕ → List ℕ
frame_text sym_on symbolize_frame s =
    if sym_on then (elim (symbolize_frame s) [ none ↦ trim_frame s | some t ↦ t ]) else trim_frame s

unfoldable pub frame_spans : Bool → (List ℕ → Option (List ℕ)) → List (List ℕ) → (f : ℕ) → List Span
frame_spans sym_on symbolize_frame [] f = []
frame_spans sym_on symbolize_frame (s ∷ syms) f =
    put (codes "    ")
    ∷ paint dim
    ∷ put (codes "#" ++ decimal f ++ codes " " ++ frame_text sym_on symbolize_frame s)
    ∷ paint reset
    ∷ put (10 ∷ [])
    ∷ frame_spans sym_on symbolize_frame syms (f + 1)

-- What a trace is printed from: the test for the runtime's frames, the symbolizer, and the frames,
-- `none` if backtrace_symbols has no memory.
pub record Stack : Type 0 where
  pub is_abi : List ℕ → Bool
  pub sym_on : Bool
  pub symbolize_frame : List ℕ → Option (List ℕ)
  pub syms : Option (List (List ℕ))

-- print_trace_text
unfoldable pub trace_text : Stack → List Span
trace_text st = elim st.syms [
  | none ↦ []
  | some syms ↦
      let frames = user_frames st.is_abi syms in
      let lines = frame_spans st.sym_on st.symbolize_frame frames 0 in
      (elim frames [
        | [] ↦ lines
        | s ∷ rest ↦
            put (codes "    ")
            ∷ paint dim
            ∷ put (codes "#stack (most recent call first):")
            ∷ paint reset
            ∷ put (10 ∷ [])
            ∷ lines
      ])
]

abbrev pub header_text : List ℕ → List Span
header_text kind = paint red ∷ put (codes "==redzone ERROR: " ++ kind) ∷ paint reset ∷ []

abbrev pub access_text : Access → List ℕ
access_text read = codes "  READ of size "
access_text _ = codes "  WRITE of size "

abbrev pub location_text : File → ℕ → List Span
location_text none line = []
location_text (some file) line =
    put (codes "    at ")
    ∷ paint cyan
    ∷ put (file ++ codes ":" ++ decimal line)
    ∷ paint reset
    ∷ put (10 ∷ [])
    ∷ []

abbrev pub allocated_text : File → ℕ → List Span
allocated_text none line = []
allocated_text (some file) line =
    put (codes "    ")
    ∷ paint dim
    ∷ put (codes "allocated at " ++ file ++ codes ":" ++ decimal line)
    ∷ paint reset
    ∷ put (10 ∷ [])
    ∷ []

-- report_simple, with the format text; `pointer` is what %p prints.
unfoldable pub report_simple_text :
    (pointer : ℕ → List ℕ) → Stack → Kind → (addr size : ℕ) → Access → File → ℕ → List Span
report_simple_text pointer st kind addr size is_write file line =
    header_text (kind_text kind)
    ++ put (10 ∷ [])
      ∷ put (access_text is_write ++ decimal size ++ codes " at " ++ pointer addr ++ 10 ∷ [])
      ∷ location_text file line
    ++ trace_text st

-- Where the address lies, seen from the user region
unfoldable pub region_text : (pointer : ℕ → List ℕ) → (addr : ℕ) → Block → List ℕ
region_text pointer addr b =
    let end = u64 (b.user_addr + b.user_size) in
    let region =
      codes "-byte region ["
      ++ pointer b.user_addr
      ++ codes ", "
      ++ pointer end
      ++ codes ")"
      ++ (if b.freed then codes " (freed)" else [])
      ++ 10 ∷ [] in
    if ltb addr b.user_addr
    then codes "  "
      ++ decimal (b.user_addr - addr)
      ++ codes " byte(s) before a "
      ++ decimal b.user_size
      ++ region
    else if leb end addr
    then codes "  "
      ++ decimal (addr - end)
      ++ codes " byte(s) after a "
      ++ decimal b.user_size
      ++ region
    else codes "  inside a " ++ decimal b.user_size ++ region

-- report, with the format text
unfoldable pub report_text :
    (pointer : ℕ → List ℕ) → Stack → Kind → (addr size : ℕ) → Access → File → ℕ → Block → List Span
report_text pointer st kind addr size is_write file line b =
    report_simple_text pointer st kind addr size is_write file line
    ++ put (region_text pointer addr b) ∷ allocated_text b.alloc_file b.alloc_line

-- report_free_error, with the format text
unfoldable pub free_error_text : (pointer : ℕ → List ℕ) → Stack → Kind → (ptr : ℕ) → List Span
free_error_text pointer st kind ptr =
    header_text (kind_text kind) ++ put (codes " of " ++ pointer ptr ++ 10 ∷ []) ∷ trace_text st

-- One line of the leak report
abbrev pub site_text : SiteLine → List Span
site_text s =
    let totals =
      codes "  "
      ++ decimal s.count
      ++ codes " allocation(s), "
      ++ decimal s.site_bytes
      ++ codes " byte(s)" in
    elim s.site_file [
      | none ↦ put (totals ++ codes " (unknown allocation site)" ++ 10 ∷ []) ∷ []
      | some file ↦
          put (totals ++ codes ", at ")
          ∷ paint cyan
          ∷ put (file ++ codes ":" ++ decimal s.site_line)
          ∷ paint reset
          ∷ put (10 ∷ [])
          ∷ []
    ]

unfoldable pub sites_text : List SiteLine → List Span
sites_text [] = []
sites_text (s ∷ sites) = site_text s ++ sites_text sites

-- report_leaks, with the format text
unfoldable pub leaks_text : (leaks bytes : ℕ) → List SiteLine → List Span
leaks_text leaks bytes sites =
    header_text (kind_text memory_leak)
    ++ put (10 ∷ [])
      ∷ put (
          codes "  "
          ++ decimal leaks
          ++ codes " allocation(s) never freed, "
          ++ decimal bytes
          ++ codes " byte(s) total"
          ++ 10 ∷ [])
      ∷ sites_text sites
