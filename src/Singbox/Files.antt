-- ===== src/Singbox/Files.antt =====
-- internal/backend/singbox/backend.go: what the backend asks of files, ports, processes and other packages,
-- and saveConfig.
use nde.Prelude.{String, ◌⊎◌, inl, inr, Option, some}
use nde.Models.{ℤ, Fields}
use nde.Backend.{Error}
use nde.Util.Json.{parse_json_or_path}

-- `config_path` and `full_config_path` are the backend's fields, the paths of the operator's
-- configuration and of the one for sing-box. `run_proxy`, with a path, `stop_proxy` and `reload` are the
-- runner's Start, Stop and Reload.
pub record Outside : Type 1 where
  pub World : Type 0
  pub config_path : String
  pub full_config_path : String
  pub parse : String → Error ⊎ Option Fields
  pub read_file : World → String → Error ⊎ String
  pub write_file : World → String → String → Option Error × World
  pub marshal : Option Fields → Error ⊎ String
  pub find_free_port : World → (Error ⊎ ℤ) × World
  pub public_key : World → String → String
  pub run_proxy : World → String → Option Error × World
  pub stop_proxy : World → Option Error × World
  pub reload : World → Option Error × World

module _ (X : Outside) where
  -- `saveConfig`
  unfoldable pub save_config : X.World → String → String → Option Error × X.World
  unfolding parse_json_or_path
  save_config w path raw = elim (parse_json_or_path X.parse (X.read_file w) raw) [
    | inl e ↦ (some e, w)
    | inr parsed ↦ elim (X.marshal parsed) [
      | inl e ↦ (some e, w)
      | inr text ↦ X.write_file w path text
    ]
  ]
