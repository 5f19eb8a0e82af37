-- ===== src/Xray/Config.antt =====
-- internal/backend/xray/config.go: the configuration that xray runs with, made from the operator's.
-- A map is its entries, in the order in which `range` takes them.
pub mod Merge
pub mod Inbounds
pub mod Api
pub mod Load
pub mod Resolved
mod Tests
use nde.Prelude.{String, Bool, true, false, List, [], ◌∷◌}
use nde.Models.{
  ℤ, Any, null, bool, int, float, str, strs, slice, obj, Items, nil, cons, Fields, end, field,
}
use nde.Models.Objects.{field_at, set_field, to_items}

-- `mergeMap`: the entries of the second map go over those of the first, and two maps under one key
-- are merged in their turn.
mutual
  unfolding field_at set_field

  pub merge_value : Any → Any → Any
  merge_value (obj over) (obj base) = obj (merge_map base over)
  merge_value over base = over

  pub merge_map : Fields → Fields → Fields
  merge_map base end = base
  merge_map base (field k v rest) =
      merge_map (set_field k (merge_value v (field_at k base)) base) rest

abbrev pub forced_flags : Fields
forced_flags = field "statsUserUplink" (bool true) (field "statsUserDownlink" (bool true) end)

abbrev pub forced_levels : Fields
forced_levels = field "0" (obj forced_flags) end

abbrev pub forced_system : Fields
forced_system = field "statsInboundDownlink" (bool false) (
    field "statsInboundUplink" (bool false)
      (field "statsOutboundDownlink" (bool true) (field "statsOutboundUplink" (bool true) end)))

-- `policyForced`
abbrev pub policy_forced : Fields
policy_forced = field "levels" (obj forced_levels) (field "system" (obj forced_system) end)

abbrev pub api_inbound : ℤ → Fields
api_inbound api_port = field "listen" (str "127.0.0.1") (
    field "port" (int api_port) (
      field "protocol" (str "dokodemo-door") (
        field "settings" (obj (field "address" (str "127.0.0.1") end))
          (field "tag" (str "API_INBOUND") end))))

abbrev api_rule : Fields
api_rule =
    field "inboundTag" (strs ("API_INBOUND" ∷ []))
      (field "outboundTag" (str "API") (field "type" (str "field") end))

abbrev pub api_entry : Fields
api_entry =
    field "services" (strs ("HandlerService" ∷ "StatsService" ∷ "LoggerService" ∷ []))
      (field "tag" (str "API") end)

pub forced_policy : Any → Any
unfolding merge_map
forced_policy (obj policy) = obj (merge_map policy policy_forced)
forced_policy _ = obj policy_forced

pub with_rule : Any → Any
unfolding field_at set_field to_items
with_rule (obj routing) =
    obj (
      set_field "rules" (slice (cons (obj api_rule) (to_items (field_at "rules" routing)))) routing)
with_rule _ = obj (field "rules" (slice (cons (obj api_rule) nil)) end)

-- `applyAPIConfig`, which writes the operator's map.
unfoldable pub apply_api_config : ℤ → Fields → Fields
unfolding forced_policy with_rule field_at set_field to_items
apply_api_config api_port cfg =
    let cfg1 = set_field "stats" (obj end) (set_field "api" (obj api_entry) cfg) in
    let cfg2 = set_field "policy" (forced_policy (field_at "policy" cfg1)) cfg1 in
    let cfg3 =
      set_field "inbounds"
        (slice (cons (obj (api_inbound api_port)) (to_items (field_at "inbounds" cfg2)))) cfg2 in
    set_field "routing" (with_rule (field_at "routing" cfg3)) cfg3
