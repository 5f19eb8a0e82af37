-- ===== src/Singbox/Stats/Tests.antt =====
-- A concrete answer of sing-box to internal/backend/singbox/stats.go.
use nde.Prelude.{ℕ, true, false, inr, none, List, [], ◌∷◌, map, ◌≡◌, refl, arith}
use nde.Prelude.Dict.{Dict}
use nde.Models.{pos}
use nde.Xray.Api.Usages.{usage_of, Traffic, as_stat, total}
use nde.Singbox.Stats.{Server, user_usages, user_usages-total}

abbrev traffic : List Traffic
traffic =
    record { uid = 7; username = "a.b>>>traffic>>>uplink"; value = pos 10 }
    ∷ record { uid = 7; username = "a.b>>>traffic>>>downlink"; value = pos 20 }
    ∷ []

abbrev server : Server
server = record {
  World = Unit {0};
  dial = λ w. (none, w);
  query_stats = λ w pattern' with_reset. (inr (map as_stat traffic), w);
  get_sys_stats = λ w. (none, w);
}

user_usages-total_example :
    (out : Dict ℕ ℕ) × (user_usages server (record { connected = false }) tt true
      ≡ (inr out, record { connected = true }, tt))
    × (usage_of 7 out ≡ 30)
unfolding total
user_usages-total_example =
    user_usages-total server (record { connected = false }) tt tt tt true traffic 7 refl refl
      (omega arith)
