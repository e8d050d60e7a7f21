-- ===== src/Output/Choices.antt =====
-- runtime/redzone_rt.c, the choices of format, colour and symbolization that the environment makes.
use redzone.Prelude.{
  ℕ, Bool, true, false, not, Option, none, some, List, [], ◌∷◌, if◌then◌else◌, codes,
}
use redzone.Leaks.{text_eq, Format, text, json, sarif}

-- rz_format, of the value of REDZONE_FORMAT
unfoldable pub rz_format : Option (List ℕ) → Format
rz_format none = text
rz_format (some f) =
    if text_eq f (codes "json") then json else if text_eq f (codes "sarif") then sarif else text

-- rz_color_on, of the values of REDZONE_COLOR and NO_COLOR and of isatty
unfoldable pub rz_color_on : (color no_color : Option (List ℕ)) → (is_tty : Bool) → Bool
rz_color_on none none is_tty = is_tty
rz_color_on none (some v) is_tty = false
rz_color_on (some e) no_color is_tty =
    if text_eq e (codes "always")
    then true
    else if text_eq e (codes "never")
    then false
    else elim no_color [ none ↦ is_tty | some v ↦ false ]

-- rz_symbolize_on, of the value of REDZONE_SYMBOLIZE
unfoldable pub rz_symbolize_on : Option (List ℕ) → Bool
rz_symbolize_on none = false
rz_symbolize_on (some []) = false
rz_symbolize_on (some (c ∷ cs)) = not (text_eq (c ∷ cs) (codes "0"))
