-- ===== src/Hysteria2/Config.antt =====
-- internal/backend/hysteria2/config.go: the configuration of hysteria2, with the node's own entries, and
-- its one inbound.
use Prim.Native.Char.{code}
use nde.Prelude.{
  String, Bool, false, not, ◌&&◌, ◌||◌, ◌⊎◌, inl, inr, Option, none, some, ◌==◌, number_key,
  text_key, if◌then◌else◌,
}
use nde.Models.{ℤ, pos, int, Any, str, obj, Fields, end, field, Inbound}
use nde.Models.Objects.{field_at, set_field, to_map}
use nde.Backend.{Error}
use nde.Storage.{Memory, register_inbound}
use nde.Text.{◌then_text◌}
use nde.Text.Integer.{itoa, atoi}

pub record Config : Type 0 where
  pub raw : Fields
  pub inbound : Inbound

-- LoadConfig panics where it writes to a nil map.
pub data Loaded : Type 0 where
  panicked : Loaded
  rejected : Error → Loaded
  loaded : Config → Loaded

-- `toString`
unfoldable pub to_string : Any → String
to_string (str s) = s
to_string _ = ""

has_colon : String → Bool
has_colon String.[] = false
has_colon (String.◌∷◌ c s) = code c == 58 || has_colon s

-- The last part of `strings.Split(s, ":")`.
unfoldable pub last_part : String → String
unfolding has_colon
last_part String.[] = String.[]
last_part (String.◌∷◌ c s) =
    let later = last_part s in
    if has_colon s then later else if code c == 58 then s else String.◌∷◌ c s

unfoldable pub port_of : String → ℤ
unfolding last_part atoi
port_of listen =
    if listen == "" then pos 443 else elim (atoi (last_part listen)) [ none ↦ pos 443 | some n ↦ n ]

-- What the node sets in the operator's configuration.
unfoldable pub auth_entry : ℤ → Any
unfolding itoa ◌then_text◌
auth_entry api_port = obj (
    field "type" (str "http") (
      field "http" (obj (field "url" (str ("http://127.0.0.1:" then_text itoa api_port)) end)) end))

unfoldable pub traffic_stats_entry : ℤ → String → Any
unfolding itoa ◌then_text◌
traffic_stats_entry stats_port stats_secret = obj (
    field "listen" (str ("127.0.0.1:" then_text itoa stats_port))
      (field "secret" (str stats_secret) end))

unfoldable pub with_entries : ℤ → ℤ → String → Fields → Fields
unfolding set_field auth_entry traffic_stats_entry
with_entries api_port stats_port stats_secret cfg =
    set_field "trafficStats" (traffic_stats_entry stats_port stats_secret)
      (set_field "auth" (auth_entry api_port) cfg)

-- The inbound of a configuration.
unfoldable pub inbound_of : Fields → Inbound
unfolding to_string port_of field_at set_field to_map
inbound_of cfg =
    let config : Fields = field "tag" (str "hysteria2") (
      field "protocol" (str "hysteria2") (
        field "port" (int (port_of (to_string (field_at "listen" cfg))))
          (field "tls" (str "tls") end))) in
    let obfs = to_map (field_at "obfs" cfg) in
    let obfs_type = to_string (field_at "type" obfs) in
    let pass = to_string (field_at "password" (to_map (field_at obfs_type obfs))) in
    record {
      tag = "hysteria2";
      protocol = "hysteria2";
      config =
          if not (obfs_type == "") && not (pass == "")
          then set_field "path" (str pass) (set_field "header_type" (str obfs_type) config)
          else config;
    }

unfoldable pub loaded_from : ℤ → ℤ → String → Error ⊎ Option Fields → Loaded
unfolding with_entries inbound_of
loaded_from api_port stats_port stats_secret (inl e) = rejected e
loaded_from api_port stats_port stats_secret (inr none) = panicked
loaded_from api_port stats_port stats_secret (inr (some operator_cfg)) =
    let cfg = with_entries api_port stats_port stats_secret operator_cfg in
    loaded (record { raw = cfg; inbound = inbound_of cfg })

-- The text of a configuration that is given as text or as the path of a file.
unfoldable pub content_of : (read : String → Error ⊎ String) → String → String
content_of read raw = elim (read raw) [ inl e ↦ raw | inr text ↦ text ]

-- `LoadConfig`; `parse` is yaml.Unmarshal into a map[string]any, with none for the nil map that a null
-- leaves, and `read` is os.ReadFile.
unfoldable pub load_config :
    (parse : String → Error ⊎ Option Fields) (read : String → Error ⊎ String)
    → String
    → ℤ
    → ℤ
    → String
    → Loaded
unfolding loaded_from content_of
load_config parse read raw api_port stats_port stats_secret =
    loaded_from api_port stats_port stats_secret (parse (content_of read raw))

-- `RegisterInbounds`
unfoldable pub register_inbounds : Config → Memory → Memory
unfolding register_inbound
register_inbounds c store = register_inbound store c.inbound
