-- ===== src/Xray/Lifecycle.antt =====
-- internal/backend/xray/backend.go: starting, stopping and restarting xray, with what the storage
-- has of its inbounds.
pub mod Registered
pub mod Serving
pub mod Failing
mod Tests
use nde.Prelude.{
  ℕ, ◌*◌, String, Bool, true, false, ◌⊎◌, inl, inr, Option, none, some, List, [], ◌∷◌, ◌==◌,
  text_key, if◌then◌else◌,
}
use nde.Models.{ℤ, Fields, Inbound}
use nde.Backend.{Error, wrapped}
use nde.Storage.{Memory}
use nde.Storage.Inbounds.{unregister_all}
use nde.Util.Json.{parse_json_or_path}
use nde.Util.Retry.{retry}
use nde.Xray.Config.Load.{
  Config, Loaded, panicked, rejected, loaded, load_config, register_inbounds,
}
use nde.Xray.Config.Load

-- Files, ports, processes, timers and other packages: all that is not memory of the node. `parse` is
-- hujson and encoding/json, `read_config` and `write_config` are for the path of the configuration.
-- `run_proxy` and `stop_proxy` are the runner's Start and Stop, `probe` is SysStats of the API, and
-- `await_worker` tells whether the goroutine that repopulates ends before the timer.
pub record Outside : Type 1 where
  pub World : Type 0
  pub parse : String → Error ⊎ Option Fields
  pub read_file : World → String → Error ⊎ String
  pub read_config : World → Error ⊎ String
  pub write_config : World → String → Option Error × World
  pub marshal : Option Fields → Error ⊎ String
  pub find_free_port : World → (Error ⊎ ℤ) × World
  pub public_key : World → String → Option String
  pub run_proxy : World → String → Option Error × World
  pub stop_proxy : World → Option Error × World
  pub probe : World → Option Error × World
  pub wait : World → ℕ → Option Error × World
  pub await_worker : World → Bool × World
  pub now : World → ℕ

-- The goroutine of startRepopulateStorageUsers.
pub data Worker : Type 0 where
  idle : Worker
  working : Worker
  cancelled : Worker

-- `api` is the port of the API that the backend has.
pub record Backend (X : Outside) : Type 0 where
  pub flow_default : String
  pub runtime_cfg : Option Config
  pub api : Option ℤ
  pub raw_config : String
  pub last_start_time : Option ℕ
  pub worker : Worker
  pub store : Memory
  pub world : X.World

-- What a call ends in: nil or an error, or the node is gone.
pub data Outcome : Type 0 where
  returned : Option Error → Outcome
  crashed : Outcome

unfoldable pub inbounds_of : Option Config → List Inbound
inbounds_of none = []
inbounds_of (some c) = c.inbounds

module _ (X : Outside) where
  -- `ContainsTag`
  unfoldable pub contains_tag : Backend X → String → Bool
  unfolding Load.contains_tag
  contains_tag b tag = elim b.runtime_cfg [ none ↦ false | some c ↦ Load.contains_tag c tag ]

  -- `ListInbounds`
  unfoldable pub list_inbounds : Backend X → List Inbound
  unfolding inbounds_of
  list_inbounds b = inbounds_of b.runtime_cfg

  unfoldable pub save_config : X.World → String → Option Error × X.World
  unfolding parse_json_or_path
  save_config w raw = elim (parse_json_or_path X.parse (X.read_file w) raw) [
    | inl e ↦ (some e, w)
    | inr pretty ↦ elim (X.marshal pretty) [
      | inl e ↦ (some e, w)
      | inr text ↦ X.write_config w text
    ]
  ]

  -- The configuration to start with: that of the file, where none is given.
  unfoldable pub chosen_config : X.World → String → (Error ⊎ String) × X.World
  unfolding save_config
  chosen_config w backend_config =
      let (err, w') = save_config w backend_config in
      if backend_config == ""
      then (X.read_config w, w)
      else (elim err [ none ↦ inr backend_config | some e ↦ inl e ], w')

  unfoldable pub wait_api_ready : X.World → Option Error × X.World
  unfolding retry
  wait_api_ready w = retry X.probe X.wait 6 (300 * 1000000) w

  -- A worker that is running is left alone.
  unfoldable pub start_repopulate : Backend X → Backend X
  start_repopulate b = elim b.worker [
    | idle ↦ record b { worker = working }
    | working ↦ b
    | cancelled ↦ b
  ]

  unfoldable pub stop_repopulate : Backend X → Backend X
  stop_repopulate b =
      let (ended, w) = X.await_worker b.world in
      let b' : Backend X = record b { worker = (if ended then idle else cancelled); world = w } in
      elim b.worker [ idle ↦ b | working ↦ b' | cancelled ↦ b' ]

  -- `Stop`
  unfoldable pub stop : Backend X → Option Error × Backend X
  unfolding stop_repopulate unregister_all inbounds_of
  stop b =
      let b1 = stop_repopulate b in
      let (err, w) = X.stop_proxy b1.world in
      (
        err,
        record b1 {
          runtime_cfg = none;
          api = none;
          store = unregister_all (inbounds_of b1.runtime_cfg) b1.store;
          world = w;
        },
      )

  -- Start from where the API has answered or not.
  api_ready : Backend X → Option Error → Outcome × Backend X
  unfolding stop start_repopulate
  api_ready b (some e) = (returned (some (wrapped "xray api not ready after start" e)), (stop b).1)
  api_ready b none =
      (returned none, start_repopulate (record b { last_start_time = some (X.now b.world) }))

  -- Start from the runner's Start on; its result comes last.
  proxy_started : Backend X → String → ℤ → Config → Option Error → Outcome × Backend X
  unfolding wait_api_ready api_ready
  proxy_started b backend_config api_port cfg (some e) = (returned (some e), b)
  proxy_started b backend_config api_port cfg none =
      let (err, w) = wait_api_ready b.world in
      api_ready
        (record b {
          runtime_cfg = some cfg;
          api = some api_port;
          raw_config = backend_config;
          world = w;
        })
        err

  -- Start from where the configuration is marshalled.
  run_config : Backend X → String → ℤ → Config → Error ⊎ String → Outcome × Backend X
  unfolding register_inbounds proxy_started
  run_config b backend_config api_port cfg (inl e) = (returned (some e), b)
  run_config b backend_config api_port cfg (inr json_config) =
      let (err, w) = X.run_proxy b.world json_config in
      proxy_started (record b { store = register_inbounds cfg b.store; world = w }) backend_config
        api_port cfg err

  -- Start from where the configuration is loaded.
  run_loaded : Backend X → String → ℤ → Loaded → Outcome × Backend X
  unfolding run_config
  run_loaded b backend_config api_port panicked = (crashed, b)
  run_loaded b backend_config api_port (rejected e) = (returned (some e), b)
  run_loaded b backend_config api_port (loaded cfg) =
      run_config b backend_config api_port cfg (X.marshal (some cfg.raw))

  -- Start from where the API has a port.
  run_on_port : Backend X → String → Error ⊎ ℤ → Outcome × Backend X
  unfolding load_config run_loaded
  run_on_port b backend_config (inl e) = (returned (some e), b)
  run_on_port b backend_config (inr api_port) = run_loaded b backend_config api_port (
      load_config X.parse (X.read_file b.world) (X.public_key b.world) b.flow_default backend_config
        api_port)

  -- Start from where the configuration is chosen.
  run_chosen : Backend X → Error ⊎ String → Outcome × Backend X
  unfolding run_on_port
  run_chosen b (inl e) = (returned (some e), b)
  run_chosen b (inr backend_config) =
      let (port, w) = X.find_free_port b.world in
      run_on_port (record b { world = w }) backend_config port

  -- `Start`
  unfoldable pub start : Backend X → String → Outcome × Backend X
  unfolding chosen_config run_chosen
  start b backend_config =
      let (chosen, w) = chosen_config b.world backend_config in
      run_chosen (record b { world = w }) chosen

  start_stopped : Backend X → String → Option Error → Outcome × Backend X
  unfolding start
  start_stopped b backend_config (some e) = (returned (some e), b)
  start_stopped b backend_config none = start b backend_config

  -- `Restart`
  unfoldable pub restart : Backend X → String → Outcome × Backend X
  unfolding stop start_stopped
  restart b backend_config = let (err, b') = stop b in start_stopped b' backend_config err
