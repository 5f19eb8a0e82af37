-- ===== src/Xray/Config/Load.antt =====
-- internal/backend/xray/config.go, LoadConfig and what the backend reads of the result.
use nde.Prelude.{
  String, Bool, false, ◌||◌, ◌==◌, text_key, ◌⊎◌, inl, inr, Option, none, some, List, [], ◌∷◌, map,
}
use nde.Models.{ℤ, Fields, Inbound}
use nde.Backend.{Error}
use nde.Storage.{Memory}
use nde.Storage.Inbounds.{register_all}
use nde.Util.Json.{parse_json_or_path}
use nde.Xray.Config.{apply_api_config}
use nde.Xray.Config.Inbounds.{resolve_inbounds}

-- `inbound_tags` is the set `inboundTag`.
pub record Config : Type 0 where
  pub raw : Fields
  pub inbounds : List Inbound
  pub inbound_tags : List String

-- LoadConfig panics where it writes to a nil map.
pub data Loaded : Type 0 where
  panicked : Loaded
  rejected : Error → Loaded
  loaded : Config → Loaded

unfoldable pub loaded_from : (String → Option String) → String → ℤ → Error ⊎ Option Fields → Loaded
unfolding apply_api_config resolve_inbounds
loaded_from public_key reality_flow api_port (inl e) = rejected e
loaded_from public_key reality_flow api_port (inr none) = panicked
loaded_from public_key reality_flow api_port (inr (some operator_cfg)) =
    let cfg = apply_api_config api_port operator_cfg in
    let found = resolve_inbounds public_key reality_flow cfg in
    loaded (record { raw = cfg; inbounds = found; inbound_tags = map (λ inb. inb.tag) found })

-- `LoadConfig`, with `parse` and `read` as for util.ParseJSONOrPath.
unfoldable pub load_config :
    (parse : String → Error ⊎ Option Fields) (read : String → Error ⊎ String)
    (public_key : String → Option String) (reality_flow : String)
    → String
    → ℤ
    → Loaded
unfolding parse_json_or_path loaded_from
load_config parse read public_key reality_flow raw api_port =
    loaded_from public_key reality_flow api_port (parse_json_or_path parse read raw)

unfoldable pub listed : String → List String → Bool
listed tag [] = false
listed tag (t ∷ rest) = t == tag || listed tag rest

unfoldable pub contains_tag : Config → String → Bool
unfolding listed
contains_tag c tag = listed tag c.inbound_tags

-- `RegisterInbounds`
unfoldable pub register_inbounds : Config → Memory → Memory
unfolding register_all
register_inbounds c m = register_all c.inbounds m
