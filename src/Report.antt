-- ===== src/Report.antt =====
-- runtime/redzone_rt.c, the findings: what the runtime reports, and how an operation ends.
use redzone.Prelude.{ℕ, Bool, true, Option, none, List}

-- `const char *file`, which may be NULL, by its bytes
abbrev pub File : Type 0
File = Option (List ℕ)

-- The error kinds, which the source spells as strings.
pub data Kind : Type 0 where
  heap_buffer_overflow use_after_free stack_buffer_overflow global_buffer_overflow : Kind
  buffer_overflow double_free invalid_free memory_leak : Kind

-- `is_write`: 1, 0 or -1 (not applicable)
pub data Access : Type 0 where
  read write not_applicable : Access

-- `has_region` is `region ≢ none`.
pub record Region : Type 0 where
  pub region_size : ℕ
  pub freed : Bool
  pub alloc_file : File
  pub alloc_line : ℕ

pub record Finding : Type 0 where
  pub kind : Kind
  pub is_write : Access
  pub size : ℕ
  pub addr : ℕ
  pub file : File
  pub line : ℕ
  pub region : Option Region
  pub with_stack : Bool

-- How a call ends: it returns, it aborts after a report, or it aborts since the table cannot grow.
pub data Outcome {ℓ} (A : Type ℓ) : Type ℓ where
  returns : A → Outcome A
  reports : Finding → Outcome A
  out_of_memory : Outcome A

infixl 5 ◌>>=◌
abbrev pub ◌>>=◌ {ℓ κ} : {A : Type ℓ} {B : Type κ} → Outcome A → (A → Outcome B) → Outcome B
returns a >>= f = f a
reports fd >>= f = reports fd
out_of_memory >>= f = out_of_memory

-- report_free_error
unfoldable pub report_free_error {ℓ} : {A : Type ℓ} → Kind → ℕ → Outcome A
report_free_error kind ptr = reports (record {
  kind = kind;
  is_write = not_applicable;
  size = 0;
  addr = ptr;
  file = none;
  line = 0;
  region = none;
  with_stack = true;
})

-- report_simple: a region that the table does not know
unfoldable pub report_simple {ℓ} : {A : Type ℓ} → Kind → ℕ → ℕ → Access → File → ℕ → Outcome A
report_simple kind addr size is_write file line = reports (record {
  kind = kind;
  is_write = is_write;
  size = size;
  addr = addr;
  file = file;
  line = line;
  region = none;
  with_stack = true;
})
