-- ===== src/Service/Tests/Usages.antt =====
-- A concrete run of FetchUsersStats of internal/service/service.go: one backend fails, and the sum
-- of the others wraps around.
use nde.Prelude.{none, some, [], ◌∷◌, ◌==◌, ◌≡◌, text_key, number_key, if◌then◌else◌}
use nde.Backend.{Backends}
use nde.Service.{Service}
use nde.Service.Stats.{
  usage_of, fetch_users_stats, reported, reported_in, usage_of-fetch_users_stats,
}
use nde.Service.Tests.{node, empty_node}

abbrev three_backends : Backends
three_backends = record node {
  range = λ w. "xray" ∷ "sing-box" ∷ "hysteria2" ∷ [];
  get_usages = λ w name reset. (
    if name == "xray"
        then some ((7, 18446744073709551615) ∷ (8, 1) ∷ [])
        else if name == "hysteria2"
        then some ((7, 3) ∷ [])
        else none,
    w,
  );
}

abbrev idle_node : Service three_backends
idle_node = record { store = empty_node.store; world = empty_node.world }

usage_of-fetch_users_stats_example : usage_of 7 (fetch_users_stats three_backends idle_node).0 ≡ 2
unfolding reported reported_in
usage_of-fetch_users_stats_example = usage_of-fetch_users_stats three_backends idle_node 7
