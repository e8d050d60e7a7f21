-- ===== src/Output/Sarif.antt =====
-- runtime/redzone_rt.c, sarif_doc, and emit_finding_and_abort, which chooses between the formats.
use redzone.Prelude.{ℕ, none, some, List, [], ◌∷◌, ◌++◌, codes}
use redzone.Report.{read, write, not_applicable, Finding}
use redzone.Leaks.{Format, json}
use redzone.Output.{Symbols, kind_text, decimal, json_str, json_finding}

-- The message of a SARIF result, cut by snprintf to 255 bytes, which no kind and size reach
unfoldable pub sarif_message : Finding → List ℕ
sarif_message fd = elim fd.is_write [
  | write ↦
      codes "WRITE of size " ++ decimal fd.size ++ codes " (" ++ kind_text fd.kind ++ codes ")"
  | read ↦ codes "READ of size " ++ decimal fd.size ++ codes " (" ++ kind_text fd.kind ++ codes ")"
  | not_applicable ↦ decimal fd.size ++ codes " byte(s) (" ++ kind_text fd.kind ++ codes ")"
]

unfoldable pub sarif_result : Finding → List ℕ
sarif_result fd =
    codes "{\"ruleId\":"
    ++ json_str (kind_text fd.kind)
    ++ codes ",\"level\":\"error\",\"message\":{\"text\":"
    ++ json_str (sarif_message fd)
    ++ codes "}"
    ++ (elim fd.file [
      | none ↦ []
      | some file ↦
          codes ",\"locations\":[{\"physicalLocation\":{\"artifactLocation\":{\"uri\":"
          ++ json_str file
          ++ codes "},\"region\":{\"startLine\":"
          ++ decimal fd.line
          ++ codes "}}}]"
    ])
    ++ codes "}"

unfoldable pub sarif_results : List Finding → List ℕ
sarif_results [] = []
sarif_results (fd ∷ []) = sarif_result fd
sarif_results (fd ∷ next ∷ fds) = sarif_result fd ++ codes "," ++ sarif_results (next ∷ fds)

-- The constant text of sarif_doc before the results
abbrev pub sarif_head : List ℕ
sarif_head =
    codes "{\"version\":\"2.1.0\",\"$schema\":"
    ++ codes "\"https://raw.githubusercontent.com/oasis-tcs/sarif-spec/master/"
    ++ codes "Schemata/sarif-schema-2.1.0.json\",\"runs\":[{\"tool\":{\"driver\":{"
    ++ codes "\"name\":\"redzone\",\"informationUri\":"
    ++ codes "\"https://github.com/nktkt/redzone\",\"rules\":[]}},\"results\":["

-- sarif_doc
unfoldable pub sarif_doc : List Finding → List ℕ
sarif_doc fds = sarif_head ++ sarif_results fds ++ codes "]}]}" ++ 10 ∷ []

-- emit_finding_and_abort: what it writes, if the format is not text
unfoldable pub emit_finding : Format → Symbols → List (List ℕ) → Finding → List ℕ
emit_finding json st syms fd = json_finding st syms fd ++ 10 ∷ []
emit_finding _ st syms fd = sarif_doc (fd ∷ [])
