-- ===== src/Xray/Config/Tests.antt =====
-- Concrete configurations for internal/backend/xray/config.go.
use nde.Prelude.{String, true, false, Option, none, [], ◌∷◌, ◌≡◌, contains, text_key}
use nde.Models.{pos, bool, str, slice, obj, nil, cons, Fields, end, field}
use nde.Models.Objects.{field_at}
use nde.Xray.Config.{apply_api_config}
use nde.Xray.Config.Api.{value_at, value_at-apply_api_config, api_keys}
use nde.Models.Named.{AllOffered}
use nde.Xray.Config.Inbounds.{is_allowed, resolve_inbounds}
use nde.Xray.Config.Resolved.{resolve_inbounds-AllOffered}

-- Two inbounds, one of them with a protocol that is not offered; the counters of users are off.
abbrev operator_config : Fields
operator_config = field "log" (obj end) (
    field "policy"
      (obj
        (field "levels" (obj (field "0" (obj (field "statsUserUplink" (bool false) end)) end)) end))
      (field "inbounds"
        (slice (
          cons
            (obj (
              field "tag" (str "in") (
                field "protocol" (str "VLESS") (
                  field "streamSettings"
                    (obj (field "network" (str "raw") (field "security" (str "reality") end)))
                    end))))
            (cons (obj (field "tag" (str "web") (field "protocol" (str "http") end))) nil)))
        end))

abbrev public_key : String → Option String
public_key private_key = none

value_at-apply_api_config_example :
    (value_at
        ("policy" ∷ "levels" ∷ "0" ∷ "statsUserUplink" ∷ [])
        (obj (apply_api_config (pos 4000) operator_config))
      ≡ bool true)
    × (value_at
          ("policy" ∷ "levels" ∷ "0" ∷ "statsUserDownlink" ∷ [])
          (obj (apply_api_config (pos 4000) operator_config))
        ≡ bool true)
    × ((k : String)
        → contains k api_keys ≡ false
        → field_at k (apply_api_config (pos 4000) operator_config) ≡ field_at k operator_config)
value_at-apply_api_config_example = value_at-apply_api_config (pos 4000) operator_config

resolve_inbounds-AllOffered_example :
    AllOffered is_allowed (resolve_inbounds public_key "xtls-rprx-vision" operator_config)
resolve_inbounds-AllOffered_example =
    resolve_inbounds-AllOffered public_key "xtls-rprx-vision" operator_config
