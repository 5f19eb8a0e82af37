-- ===== src/Startup.antt =====
-- cmd/marznode/main.go and the NewBackend functions of internal/backend: the backends of the node from
-- the settings, started one after the other on one storage.
pub mod Registered
mod Tests
use nde.Prelude.{
  ℕ, ◌*◌, String, true, false, Option, none, some, [], ◌==◌, number_key, text_key, if◌then◌else◌,
}
use nde.Models.{ℤ, pos, negsuc}
use nde.Backend.{Error}
use nde.Storage.{Memory, new_memory}
use nde.Auth.{Packages, AuthAlgorithm, auth_plain, auth_hash}
use nde.Settings.{Config}
use nde.Xray
use nde.Xray.Lifecycle.{idle}
use nde.Hysteria2
use nde.Singbox

-- A number that counts only where it is positive.
abbrev or_zero : ℤ → ℕ
or_zero (pos n) = n
or_zero (negsuc n) = 0

-- NewBackend of xray: what Start uses of the settings.
unfoldable pub new_xray :
    (X : Xray.Lifecycle.Outside) → Config → Memory → X.World → Xray.Lifecycle.Backend X
new_xray X cfg store w = record {
  flow_default = cfg.xray_vless_reality_flow;
  runtime_cfg = none;
  api = none;
  raw_config = "";
  last_start_time = none;
  worker = idle;
  store = store;
  world = w;
}

-- NewBackend of xray: the settings of its monitor.
unfoldable pub xray_health : Config → Xray.Health.Settings
xray_health cfg = record {
  health_failures = or_zero cfg.xray_health_check_failures;
  health_cooldown = or_zero cfg.xray_health_restart_cooldown;
}

-- NewBackend of hysteria2.
unfoldable pub new_hysteria2 :
    (X : Hysteria2.Lifecycle.Outside) → Memory → X.World → Hysteria2.Lifecycle.Backend X
new_hysteria2 X store w = record {
  users_by_pass = [];
  inbounds = [];
  server = none;
  stats_port = pos 0;
  stats_secret = "";
  raw_config = "";
  store = store;
  world = w;
}

-- NewBackend of hysteria2: the settings of its monitor.
unfoldable pub hysteria2_health : Config → Hysteria2.Health.Settings
hysteria2_health cfg = record {
  health_failures = or_zero cfg.hysteria_health_check_failures;
  restart_on_failure = cfg.hysteria_restart_on_failure;
}

-- NewBackend of sing-box.
unfoldable pub new_singbox :
    (X : Singbox.Files.Outside) → Memory → X.World → Singbox.Lifecycle.Backend X
new_singbox X store w = record {
  updates = record { runtime_cfg = none; config_dirty = false };
  inbounds = [];
  by_tag = [];
  stats = none;
  raw_config = "";
  store = store;
  world = w;
}

-- NewBackend of sing-box: how often its worker looks, in nanoseconds.
unfoldable pub user_update_tick : Config → ℕ
user_update_tick cfg =
    let ticks = or_zero cfg.sing_box_user_modification_interval in
    if ticks == 0 then 30 * 1000000000 else ticks

-- The secrets that a setting selects.
unfoldable pub algorithm_of : Config → AuthAlgorithm
algorithm_of cfg = if cfg.auth_generation_algorithm == "plain" then auth_plain else auth_hash

-- What runs after the start, and the storage that the backends share; a backend's own `store` is the
-- storage as it was when that backend was started.
pub record Node (X : Xray.Lifecycle.Outside) (H : Hysteria2.Lifecycle.Outside)
    (S : Singbox.Files.Outside) : Type 0 where
  pub xray : Option (Xray.Lifecycle.Backend X)
  pub hysteria2 : Option (Hysteria2.Lifecycle.Backend H)
  pub sing_box : Option (Singbox.Lifecycle.Backend S)
  pub store : Memory

module _ (X : Xray.Lifecycle.Outside) where
  started_xray :
      Xray.Lifecycle.Outcome × Xray.Lifecycle.Backend X
      → Option (Option (Xray.Lifecycle.Backend X) × Memory)
  started_xray (Xray.Lifecycle.returned none, b) = some (some b, b.store)
  started_xray (Xray.Lifecycle.returned (some e), b) = none
  started_xray (Xray.Lifecycle.crashed, b) = none

  -- The start of xray, if it is enabled; none where the node ends.
  start_xray : Config → Memory → X.World → Option (Option (Xray.Lifecycle.Backend X) × Memory)
  unfolding new_xray Xray.Lifecycle.start started_xray
  start_xray cfg store w =
      if cfg.xray_enabled
      then started_xray (Xray.Lifecycle.start X (new_xray X cfg store w) "")
      else some (none, store)

module _ (H : Hysteria2.Lifecycle.Outside) where
  started_hysteria2 :
      Hysteria2.Lifecycle.Outcome × Hysteria2.Lifecycle.Backend H
      → Option (Option (Hysteria2.Lifecycle.Backend H) × Memory)
  started_hysteria2 (Hysteria2.Lifecycle.returned none, b) = some (some b, b.store)
  started_hysteria2 (Hysteria2.Lifecycle.returned (some e), b) = none
  started_hysteria2 (Hysteria2.Lifecycle.crashed, b) = none

  start_hysteria2 :
      Config → Memory → H.World → Option (Option (Hysteria2.Lifecycle.Backend H) × Memory)
  unfolding new_hysteria2 Hysteria2.Lifecycle.start started_hysteria2
  start_hysteria2 cfg store w =
      if cfg.hysteria_enabled
      then started_hysteria2 (Hysteria2.Lifecycle.start H (new_hysteria2 H store w) "")
      else some (none, store)

module _ (S : Singbox.Files.Outside) (P : Packages Error) where
  started_singbox :
      Singbox.Lifecycle.Outcome × Singbox.Lifecycle.Backend S
      → Option (Option (Singbox.Lifecycle.Backend S) × Memory)
  started_singbox (Singbox.Lifecycle.returned none, b) = some (some b, b.store)
  started_singbox (Singbox.Lifecycle.returned (some e), b) = none
  started_singbox (Singbox.Lifecycle.crashed, b) = none

  start_singbox : Config → Memory → S.World → Option (Option (Singbox.Lifecycle.Backend S) × Memory)
  unfolding new_singbox algorithm_of Singbox.Lifecycle.start started_singbox
  start_singbox cfg store w =
      if cfg.sing_box_enabled
      then started_singbox
          (Singbox.Lifecycle.start S P (algorithm_of cfg) (new_singbox S store w) "")
      else some (none, store)

module _ (X : Xray.Lifecycle.Outside) (H : Hysteria2.Lifecycle.Outside) (S : Singbox.Files.Outside)
    (P : Packages Error) where
  after_singbox :
      Option (Xray.Lifecycle.Backend X)
      → Option (Hysteria2.Lifecycle.Backend H)
      → Option (Option (Singbox.Lifecycle.Backend S) × Memory)
      → Option (Node X H S)
  after_singbox xray hysteria2 none = none
  after_singbox xray hysteria2 (some (sing_box, store)) =
      some (record { xray = xray; hysteria2 = hysteria2; sing_box = sing_box; store = store })

  after_hysteria2 :
      Config
      → S.World
      → Option (Xray.Lifecycle.Backend X)
      → Option (Option (Hysteria2.Lifecycle.Backend H) × Memory)
      → Option (Node X H S)
  unfolding start_singbox after_singbox
  after_hysteria2 cfg ws xray none = none
  after_hysteria2 cfg ws xray (some (hysteria2, store)) =
      after_singbox xray hysteria2 (start_singbox S P cfg store ws)

  after_xray :
      Config
      → H.World
      → S.World
      → Option (Option (Xray.Lifecycle.Backend X) × Memory)
      → Option (Node X H S)
  unfolding start_hysteria2 after_hysteria2
  after_xray cfg wh ws none = none
  after_xray cfg wh ws (some (xray, store)) =
      after_hysteria2 cfg ws xray (start_hysteria2 H cfg store wh)

  -- main up to the gRPC server: the first backend that fails ends the node.
  unfoldable pub start_node : Config → X.World → H.World → S.World → Option (Node X H S)
  unfolding start_xray after_xray new_memory
  start_node cfg wx wh ws = after_xray cfg wh ws (start_xray X cfg new_memory wx)
