-- ===== src/Xray/Health.antt =====
-- internal/backend/xray/backend.go, monitorHealth: one tick of its loop, and when it restarts the
-- proxy.
use nde.Prelude.{
  ℕ, ◌+◌, Bool, true, false, not, ◌||◌, ◌&&◌, Option, none, some, List, ◌≡◌, arith, if◌then◌else◌,
  ltb,
}
use nde.Health.{
  max_failures, max_failures-pos, restarts, restarts_within, all_newest, counted,
  all_newest-restarts, may-restarts, restarts_within-all_newest,
}

-- A cooldown of 0 stands for all that are not positive.
pub record Settings : Type 0 where
  pub health_failures : ℕ
  pub health_cooldown : ℕ

-- What a tick sees: a planned stop, the process, the API's client, whether SysStats gives an error,
-- and the time since the last start, if there was one.
pub record Seen : Type 0 where
  pub stop_planned : Bool
  pub running : Bool
  pub has_api : Bool
  pub stats_fail : Bool
  pub elapsed : Option ℕ

unfoldable pub in_cooldown : Settings → Seen → Bool
in_cooldown c s =
    if ltb 0 c.health_cooldown
    then elim s.elapsed [ none ↦ false | some t ↦ ltb t c.health_cooldown ]
    else false

-- The new count, and whether Restart is called.
unfoldable pub xray_tick : Settings → ℕ → Seen → ℕ × Bool
unfolding max_failures in_cooldown
xray_tick c n s =
    if s.stop_planned || not s.running
    then (0, false)
    else if not s.has_api
    then (0, false)
    else if not s.stats_fail
    then (0, false)
    else if ltb (n + 1) (max_failures c.health_failures)
    then (n + 1, false)
    else if in_cooldown c s
    then (0, false)
    else (0, true)

abbrev pub unhealthy : Seen → Bool
unhealthy s = not s.stop_planned && s.running && s.has_api && s.stats_fail

xray_tick_lem :
    (c : Settings) (n : ℕ) (s : Seen)
    → xray_tick c n s
      ≡ counted unhealthy (λ s. not (in_cooldown c s)) (max_failures c.health_failures) n s
unfolding xray_tick
xray_tick_lem c n s = ground arith

-- The xray proxy is restarted only after as many ticks in a row as the setting says at which it ran,
-- no stop was planned, and its API did not answer, and only when the cooldown after the last start
-- is over.
pub all_newest-xray_tick :
    (c : Settings) (h : List Seen)
    → restarts (xray_tick c) h ≡ true
    → (all_newest unhealthy (max_failures c.health_failures) h ≡ true)
      × (all_newest (λ s. not (in_cooldown c s)) 1 h ≡ true)
all_newest-xray_tick c h e = (
  all_newest-restarts (xray_tick c) unhealthy (λ s. not (in_cooldown c s))
      (max_failures c.health_failures) (max_failures-pos c.health_failures) (xray_tick_lem c) h e,
  may-restarts (xray_tick c) unhealthy (λ s. not (in_cooldown c s)) (max_failures c.health_failures)
      (max_failures-pos c.health_failures) (xray_tick_lem c) h e,
)

-- So many unhealthy ticks in a row, all past the cooldown after the last start, have a restart among
-- them.
pub restarts_within-xray_tick :
    (c : Settings) (h : List Seen)
    → all_newest (λ s. unhealthy s && not (in_cooldown c s)) (max_failures c.health_failures) h
      ≡ true
    → restarts_within (xray_tick c) (max_failures c.health_failures) h ≡ true
restarts_within-xray_tick c =
    restarts_within-all_newest (xray_tick c) unhealthy (λ s. not (in_cooldown c s))
      (max_failures c.health_failures) (max_failures-pos c.health_failures) (xray_tick_lem c)
