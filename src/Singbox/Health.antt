-- ===== src/Singbox/Health.antt =====
-- internal/backend/singbox/backend.go, monitorHealth: one tick of its loop, and when it restarts the
-- proxy.
use nde.Prelude.{ℕ, ◌+◌, Bool, true, false, not, ◌||◌, ◌&&◌, List, ◌≡◌, arith, if◌then◌else◌, ltb}
use nde.Health.{
  max_failures, max_failures-pos, restarts, restarts_within, all_newest, counted,
  all_newest-restarts, restarts_within-all_newest,
}

-- What a tick sees: a planned stop, the process, the client of its statistics, and whether SysStats
-- gives an error.
pub record Seen : Type 0 where
  pub stop_planned : Bool
  pub running : Bool
  pub has_stats : Bool
  pub stats_fail : Bool

-- `health_failures` is the setting. The new count, and whether Restart is called.
unfoldable pub singbox_tick : ℕ → ℕ → Seen → ℕ × Bool
unfolding max_failures
singbox_tick health_failures n s =
    if s.stop_planned || not s.running
    then (0, false)
    else if not s.has_stats
    then (0, false)
    else if not s.stats_fail
    then (0, false)
    else if ltb (n + 1) (max_failures health_failures)
    then (n + 1, false)
    else (0, true)

abbrev pub unhealthy : Seen → Bool
unhealthy s = not s.stop_planned && s.running && s.has_stats && s.stats_fail

singbox_tick_lem :
    (health_failures n : ℕ) (s : Seen)
    → singbox_tick health_failures n s
      ≡ counted unhealthy (λ s. true) (max_failures health_failures) n s
unfolding singbox_tick
singbox_tick_lem health_failures n s = ground arith

-- The sing-box proxy is restarted only after as many ticks in a row as the setting says at which it
-- ran, no stop was planned, and its statistics did not answer.
pub all_newest-singbox_tick :
    (health_failures : ℕ) (h : List Seen)
    → restarts (singbox_tick health_failures) h ≡ true
    → all_newest unhealthy (max_failures health_failures) h ≡ true
all_newest-singbox_tick n =
    all_newest-restarts (singbox_tick n) unhealthy (λ s. true) (max_failures n) (max_failures-pos n)
      (singbox_tick_lem n)

-- So many unhealthy ticks in a row have a restart among them.
pub restarts_within-singbox_tick :
    (health_failures : ℕ) (h : List Seen)
    → all_newest (λ s. unhealthy s && true) (max_failures health_failures) h ≡ true
    → restarts_within (singbox_tick health_failures) (max_failures health_failures) h ≡ true
restarts_within-singbox_tick n =
    restarts_within-all_newest (singbox_tick n) unhealthy (λ s. true) (max_failures n)
      (max_failures-pos n) (singbox_tick_lem n)
