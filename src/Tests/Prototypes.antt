-- ===== src/Tests/Prototypes.antt =====
-- A call to __sprintf_chk of the program, sprintf(dst, "%d", x) as the C library's header expands it.
use redzone.Prelude.{ℕ, refl, List, [], ◌∷◌, some, ◌==◌, ◌||◌, if◌then◌else◌}
use redzone.Pass.{Operand, value}
use redzone.Pass.Calls.{sprintf_chk_call, redirect}
use redzone.Pass.Prototypes.{ParamType, ptr, i64, i32, same_type, Declares}
use redzone.Pass.Prototypes.Redirected.{redirect-Declares}

-- The destination and the format are pointers, the size has 64 bits, the flag and `x` have 32.
abbrev types : ℕ → ParamType
types v = if v == 1 || v == 4 then ptr else if v == 3 then i64 else i32

abbrev printed : List Operand
printed = value 1 ∷ value 2 ∷ value 3 ∷ value 4 ∷ value 5 ∷ []

redirect-Declares_example :
    Declares types (redirect sprintf_chk_call printed (some (109 ∷ 46 ∷ 99 ∷ [], 7)))
unfolding same_type
redirect-Declares_example =
    redirect-Declares types sprintf_chk_call printed (some (109 ∷ 46 ∷ 99 ∷ [], 7)) refl
