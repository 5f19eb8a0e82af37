-- ===== src/Xray/Lifecycle/Tests.antt =====
-- Concrete starts and stops of internal/backend/xray/backend.go.
use nde.Prelude.{
  String, true, not, ◌&&◌, ◌||◌, ◌⊎◌, inl, inr, Option, none, some, [], ◌∷◌, ◌==◌, ◌≡◌, refl,
  text_key, if◌then◌else◌, arith,
}
use nde.Models.{pos, str, slice, obj, nil, cons, Fields, end, field}
use nde.Backend.{Error, failed}
use nde.Storage.{new_memory}
use nde.Storage.Lookups.{registered}
use nde.Xray.Config.{apply_api_config}
use nde.Xray.Config.Inbounds.{resolve_inbounds}
use nde.Xray.Config.Load.{Config, load_config}
use nde.Xray.Config.Load
use nde.Xray.Lifecycle.{
  Outside, idle, Backend, returned, contains_tag, start, stop, restart, chosen_config,
}
use nde.Xray.Lifecycle.Registered.{IsIndexed}
use nde.Xray.Lifecycle.Serving.{IsServing, restart-registered}
use nde.Xray.Lifecycle.Failing.{ProxyFails, start-fails_registered}

abbrev operator_config : Fields
operator_config =
    field "inbounds"
      (slice (cons (obj (field "tag" (str "in") (field "protocol" (str "trojan") end))) nil)) end

abbrev parsed : String → Error ⊎ Option Fields
parsed text = if text == "null" then inr none else inr (some operator_config)

-- A proxy that starts as the world says.
abbrev outside : Outside
outside = record {
  World = Option Error;
  parse = parsed;
  read_file = λ w path. inl (failed "no file");
  read_config = λ w. inr "file";
  write_config = λ w text. (none, w);
  marshal = λ value. inr "{}";
  find_free_port = λ w. (inr (pos 4000), w);
  public_key = λ w key. none;
  run_proxy = λ w json. (w, w);
  stop_proxy = λ w. (none, w);
  probe = λ w. (none, w);
  wait = λ w delay. (none, w);
  await_worker = λ w. (true, w);
  now = λ w. 5;
}

-- A backend that was not started.
abbrev stopped : Option Error → Backend outside
stopped w = record {
  flow_default = "";
  runtime_cfg = none;
  api = none;
  raw_config = "";
  last_start_time = none;
  worker = idle;
  store = new_memory;
  world = w;
}

stopped-IsServing : IsServing outside (stopped none)
unfolding contains_tag
stopped-IsServing = record { indexed = tt; served = λ tag has. absurd (ground (arith, has)) }

restart-registered_example :
    let r = restart outside (stopped none) "file" in
    IsServing outside r.1
    × (r.0 ≡ returned none
        → (tag : String)
        → registered r.1.store tag ≡ (
            contains_tag outside r.1 tag
            || (not (contains_tag outside (stopped none) tag) && registered new_memory tag)))
restart-registered_example = restart-registered outside (stopped none) "file" stopped-IsServing

abbrev running : Backend outside
running = (start outside (stopped none) "file").1

abbrev loaded_config : Config
loaded_config =
    let cfg = apply_api_config (pos 4000) operator_config in
    record { raw = cfg; inbounds = resolve_inbounds (λ key. none) "" cfg; inbound_tags = "in" ∷ [] }

abbrev no_proxy : Error
no_proxy = failed "xray already running"

-- xray runs when it is started again.
abbrev busy : Backend outside
busy = record running { world = some no_proxy }

proxy_fails : ProxyFails outside busy "file" loaded_config no_proxy
unfolding chosen_config load_config apply_api_config resolve_inbounds
proxy_fails = record {
  raw = "file";
  port = pos 4000;
  chosen_world = some no_proxy;
  port_world = some no_proxy;
  json = "{}";
  chosen = refl;
  found = refl;
  accepted = refl;
  marshalled = refl;
  failed = refl;
}

busy-IsIndexed : IsIndexed busy.runtime_cfg
unfolding start stop Load.contains_tag apply_api_config resolve_inbounds
busy-IsIndexed = refl

start-fails_registered_example :
    let b' = (start outside busy "file").1 in
    (contains_tag outside b' "in" ≡ contains_tag outside busy "in")
    × (registered b'.store "in"
        ≡ (Load.contains_tag loaded_config "in" || registered busy.store "in"))
    × (registered (stop outside b').1.store "in" ≡ (
        not (contains_tag outside busy "in")
        && (Load.contains_tag loaded_config "in" || registered busy.store "in")))
unfolding apply_api_config resolve_inbounds
start-fails_registered_example =
    start-fails_registered outside busy "file" loaded_config no_proxy "in" proxy_fails refl
      busy-IsIndexed
