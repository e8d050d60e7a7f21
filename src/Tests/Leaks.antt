-- ===== src/Tests/Leaks.antt =====
-- The leak report on two leaks of one site, a freed block and a suppressed one.
use redzone.Prelude.{◌≡◌, ◌↔◌, refl, arith, true, false, none, some, List, [], ◌∷◌}
use redzone.Table.{Block}
use redzone.Leaks.{
  Text, skip_blanks, trim_end, strip_prefix, rule_of, load_suppressions, starts_with, contains,
  any_in, leak_suppressed, is_unsuppressed_leak, leaked, text_eq, same_file, fold_one, fold_site,
  site_of, site_lines, text, quiet, report_leaks,
}
use redzone.Leaks.Totals.{line_totals, site_lines-totals}
use redzone.Leaks.Quiet.{Clean, report_leaks-quiet_iff}
use redzone.Tests.Samples.{block_a, block_b, block_dead}

-- " leak:ab \n" is a rule, "# x" is none.
abbrev rules : List Text
rules = (32 ∷ 108 ∷ 101 ∷ 97 ∷ 107 ∷ 58 ∷ 97 ∷ 98 ∷ 32 ∷ 10 ∷ []) ∷ (35 ∷ 32 ∷ 120 ∷ []) ∷ []

leak_program : Unit {0}
unfolding skip_blanks trim_end strip_prefix rule_of load_suppressions starts_with contains any_in
    leak_suppressed is_unsuppressed_leak leaked text_eq same_file fold_one fold_site site_of
    site_lines
leak_program = tt

abbrev supp : List Text
supp = (97 ∷ 98 ∷ []) ∷ []

rules_loaded : load_suppressions (λ _. true) (λ _. true) [] rules ≡ supp
unfolding leak_program
rules_loaded = refl

-- Allocated in "cabd", which the rule matches.
abbrev block_c : Block
block_c = record block_b { alloc_file = some (99 ∷ 97 ∷ 98 ∷ 100 ∷ []) }

abbrev table : List Block
table = block_a ∷ block_c ∷ block_dead ∷ block_b ∷ []

one_site :
    site_lines supp true table 0 (λ _. false)
    ≡ record { count = 2; site_bytes = 28; site_file = none; site_line = 0 } ∷ []
unfolding leak_program
one_site = refl

site_lines-totals_example :
    ((line_totals (site_lines supp true table 0 (λ _. false))).0 ≡ (leaked supp table).0)
    × ((line_totals (site_lines supp true table 0 (λ _. false))).1 ≡ (leaked supp table).1)
site_lines-totals_example = site_lines-totals supp true table

report_leaks-quiet_iff_example :
    (report_leaks true true text supp table ≡ quiet) ↔ (true ≡ true → Clean supp table)
report_leaks-quiet_iff_example = report_leaks-quiet_iff true true text supp table (omega arith)
