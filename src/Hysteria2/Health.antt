-- ===== src/Hysteria2/Health.antt =====
-- internal/backend/hysteria2/backend.go, monitorHealth: one tick of its loop, and when it restarts the
-- proxy.
use nde.Prelude.{ℕ, ◌+◌, Bool, true, false, not, ◌||◌, ◌&&◌, List, ◌≡◌, arith, if◌then◌else◌, ltb}
use nde.Health.{
  max_failures, max_failures-pos, restarts, restarts_within, all_newest, counted,
  all_newest-restarts, restarts_within-all_newest,
}

pub record Settings : Type 0 where
  pub health_failures : ℕ
  pub restart_on_failure : Bool

-- What a tick sees: a planned stop, the process, and whether fetchTraffic gives an error.
pub record Seen : Type 0 where
  pub stop_planned : Bool
  pub running : Bool
  pub traffic_fails : Bool

-- The new count, and whether Restart is called.
unfoldable pub hysteria2_tick : Settings → ℕ → Seen → ℕ × Bool
unfolding max_failures
hysteria2_tick c n s =
    let n' = if not s.running then n + 1 else if s.traffic_fails then n + 1 else 0 in
    if s.stop_planned
    then (0, false)
    else if ltb n' (max_failures c.health_failures)
    then (n', false)
    else if not c.restart_on_failure
    then (0, false)
    else (0, true)

abbrev pub unhealthy : Seen → Bool
unhealthy s = not s.stop_planned && (not s.running || s.traffic_fails)

hysteria2_tick_lem :
    (c : Settings) (n : ℕ) (s : Seen)
    → hysteria2_tick c n s
      ≡ counted unhealthy (λ s. c.restart_on_failure) (max_failures c.health_failures) n s
unfolding hysteria2_tick
hysteria2_tick_lem c n s = ground (arith, max_failures-pos c.health_failures)

-- The hysteria2 proxy is restarted only after as many ticks in a row as the setting says at which it
-- did not run or did not answer, and no stop was planned.
pub all_newest-hysteria2_tick :
    (c : Settings) (h : List Seen)
    → restarts (hysteria2_tick c) h ≡ true
    → all_newest unhealthy (max_failures c.health_failures) h ≡ true
all_newest-hysteria2_tick c =
    all_newest-restarts (hysteria2_tick c) unhealthy (λ s. c.restart_on_failure)
      (max_failures c.health_failures) (max_failures-pos c.health_failures) (hysteria2_tick_lem c)

-- With restarts enabled, so many unhealthy ticks in a row have a restart among them.
pub restarts_within-hysteria2_tick :
    (c : Settings) (h : List Seen)
    → all_newest (λ s. unhealthy s && c.restart_on_failure) (max_failures c.health_failures) h
      ≡ true
    → restarts_within (hysteria2_tick c) (max_failures c.health_failures) h ≡ true
restarts_within-hysteria2_tick c =
    restarts_within-all_newest (hysteria2_tick c) unhealthy (λ s. c.restart_on_failure)
      (max_failures c.health_failures) (max_failures-pos c.health_failures) (hysteria2_tick_lem c)
