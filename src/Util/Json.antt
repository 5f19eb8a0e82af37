-- ===== src/Util/Json.antt =====
-- internal/util/jsonc.go: a configuration given as text or as the path of a file.
use nde.Prelude.{String, ◌⊎◌, inl, inr, Option}
use nde.Models.{Fields}
use nde.Backend.{Error}

-- `parse` is hujson.Standardize and json.Unmarshal into a map[string]any, with none for the nil map
-- that a JSON null leaves; `read` is os.ReadFile.
unfoldable pub parse_json_or_path :
    (parse : String → Error ⊎ Option Fields) (read : String → Error ⊎ String)
    → String
    → Error ⊎ Option Fields
parse_json_or_path parse read raw = elim (parse raw) [
  | inr value ↦ inr value
  | inl _ ↦ elim (read raw) [ inl e ↦ inl e | inr text ↦ parse text ]
]
