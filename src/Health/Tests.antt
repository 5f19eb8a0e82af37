-- ===== src/Health/Tests.antt =====
-- Concrete histories of the xray backend's monitorHealth, with two failures to a restart.
use nde.Prelude.{true, false, some, [], ◌∷◌, ◌≡◌, refl}
use nde.Health.{max_failures, restarts_within, all_newest}
use nde.Xray.Health as Xray
use nde.Xray.Health.{xray_tick, in_cooldown, all_newest-xray_tick, restarts_within-xray_tick}

abbrev xray_settings : Xray.Settings
xray_settings = record { health_failures = 2; health_cooldown = 10 }

abbrev late : Xray.Seen
late = record {
  stop_planned = false;
  running = true;
  has_api = true;
  stats_fail = true;
  elapsed = some 25;
}

restarts_within-xray_tick_example :
    restarts_within (xray_tick xray_settings) 2 (late ∷ late ∷ late ∷ []) ≡ true
unfolding max_failures
restarts_within-xray_tick_example =
    restarts_within-xray_tick xray_settings (late ∷ late ∷ late ∷ [])
      (unfold all_newest in_cooldown in refl)
