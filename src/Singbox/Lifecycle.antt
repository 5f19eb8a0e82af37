-- ===== src/Singbox/Lifecycle.antt =====
-- internal/backend/singbox/backend.go: starting, stopping and restarting sing-box, and LoadConfig of
-- internal/backend/singbox/config.go. The users of the storage are put into the configuration before
-- sing-box reads it.
pub mod Users
pub mod Served
mod Tests
use nde.Prelude.{
  String, Bool, false, ◌⊎◌, inl, inr, Option, none, some, List, [], ◌∷◌, map, ◌==◌, text_key,
  if◌then◌else◌, contains,
}
use nde.Models.{ℤ, Fields, User, Inbound}
use nde.Backend.{Error}
use nde.Storage.{Memory, list_inbound_users}
use nde.Storage.Inbounds.{register_all, unregister_all}
use nde.Auth.{Packages, AuthAlgorithm}
use nde.Util.Json.{parse_json_or_path}
use nde.Singbox.Config.{append_user}
use nde.Singbox.Config.Inbounds.{apply_api, resolve_inbounds}
use nde.Singbox.Files.{Outside, save_config}
use nde.Singbox.Updates.{Updates}

pub record Config : Type 0 where
  pub raw : Fields
  pub inbounds : List Inbound
  pub by_tag : List String

-- LoadConfig panics where it writes to a nil map.
pub data Loaded : Type 0 where
  panicked : Loaded
  rejected : Error → Loaded
  loaded : Config → Loaded

unfoldable pub loaded_from : (String → String) → ℤ → Error ⊎ Option Fields → Loaded
unfolding apply_api resolve_inbounds
loaded_from public_key api_port (inl e) = rejected e
loaded_from public_key api_port (inr none) = panicked
loaded_from public_key api_port (inr (some operator_cfg)) =
    let cfg = apply_api api_port operator_cfg in
    let found = resolve_inbounds public_key cfg in
    loaded (record { raw = cfg; inbounds = found; by_tag = map (λ inb. inb.tag) found })

-- `updates` has the `Raw` of the runtime configuration, none where there is no configuration; then
-- `inbounds` and `by_tag` are empty. `stats` is the port of the statistics.
pub record Backend (X : Outside) : Type 0 where
  pub updates : Updates
  pub inbounds : List Inbound
  pub by_tag : List String
  pub stats : Option ℤ
  pub raw_config : String
  pub store : Memory
  pub world : X.World

-- What a call ends in: nil or an error, or the node is gone.
pub data Outcome : Type 0 where
  returned : Option Error → Outcome
  crashed : Outcome

module _ (P : Packages Error) (algo : AuthAlgorithm) where
  -- addStorageUsers for one inbound: the first error ends it.
  unfoldable pub add_users : Inbound → List User → Fields → Option Error × Fields
  unfolding append_user
  add_users inb [] raw = (none, raw)
  add_users inb (user ∷ rest) raw =
      let (err, raw') = append_user P algo raw user inb in
      let later = add_users inb rest raw' in elim err [ none ↦ later | some e ↦ (some e, raw') ]

  -- `addStorageUsers`
  unfoldable pub add_storage_users : Memory → List Inbound → Fields → Option Error × Fields
  unfolding add_users list_inbound_users
  add_storage_users store [] raw = (none, raw)
  add_storage_users store (inb ∷ rest) raw =
      let (err, raw') = add_users inb (list_inbound_users store inb.tag) raw in
      let later = add_storage_users store rest raw' in
      elim err [ none ↦ later | some e ↦ (some e, raw') ]

module _ (X : Outside) where
  -- `ContainsTag`
  unfoldable pub contains_tag : Backend X → String → Bool
  unfolding contains
  contains_tag b tag = contains tag b.by_tag

  -- The configuration to start with: that of the file, where none is given.
  unfoldable pub chosen_config : X.World → String → (Error ⊎ String) × X.World
  unfolding save_config
  chosen_config w backend_config =
      let (err, w') = save_config X w X.config_path backend_config in
      if backend_config == ""
      then (X.read_file w X.config_path, w)
      else (elim err [ none ↦ inr backend_config | some e ↦ inl e ], w')

  -- `LoadConfig`
  unfoldable pub load_config : X.World → String → ℤ → Loaded
  unfolding parse_json_or_path loaded_from
  load_config w raw api_port =
      loaded_from (X.public_key w) api_port (parse_json_or_path X.parse (X.read_file w) raw)

  -- `Stop`
  unfoldable pub stop : Backend X → Option Error × Backend X
  unfolding unregister_all
  stop b =
      let (err, w) = X.stop_proxy b.world in
      let idle : Updates = record (b.updates) { runtime_cfg = none } in
      (
        err,
        record b {
          updates = idle;
          inbounds = [];
          by_tag = [];
          stats = none;
          store = unregister_all b.inbounds b.store;
          world = w;
        },
      )

  -- The end of Start, with the result of the runner's Start.
  proxy_started : Backend X → String → ℤ → Config → Option Error → Outcome × Backend X
  proxy_started b backend_config api_port cfg (some e) = (returned (some e), b)
  proxy_started b backend_config api_port cfg none =
      let running : Updates = record (b.updates) { runtime_cfg = some cfg.raw } in
      (
        returned none,
        record b {
          updates = running;
          inbounds = cfg.inbounds;
          by_tag = cfg.by_tag;
          stats = some api_port;
          raw_config = backend_config;
        },
      )

  -- Start from where the configuration for sing-box is saved or not.
  saved : Backend X → String → ℤ → Config → Option Error × X.World → Outcome × Backend X
  unfolding proxy_started
  saved b backend_config api_port cfg (some e, w) = (returned (some e), record b { world = w })
  saved b backend_config api_port cfg (none, w) =
      let (err, w') = X.run_proxy w X.full_config_path in
      proxy_started (record b { world = w' }) backend_config api_port cfg err

  -- Start from where the configuration is marshalled.
  marshalled : Backend X → String → ℤ → Config → Error ⊎ String → Outcome × Backend X
  unfolding save_config saved
  marshalled b backend_config api_port cfg (inl e) = (returned (some e), b)
  marshalled b backend_config api_port cfg (inr json_cfg) =
      saved b backend_config api_port cfg (save_config X b.world X.full_config_path json_cfg)

  -- Start from where the users of the storage are added.
  filled : Backend X → String → ℤ → Config → Option Error × Fields → Outcome × Backend X
  unfolding marshalled
  filled b backend_config api_port cfg (some e, raw) = (returned (some e), b)
  filled b backend_config api_port cfg (none, raw) =
      marshalled b backend_config api_port (record cfg { raw = raw }) (X.marshal (some raw))

module _ (X : Outside) (P : Packages Error) (algo : AuthAlgorithm) where
  -- Start from where the configuration is loaded.
  run_loaded : Backend X → String → ℤ → Loaded → Outcome × Backend X
  unfolding register_all add_storage_users filled
  run_loaded b backend_config api_port panicked = (crashed, b)
  run_loaded b backend_config api_port (rejected e) = (returned (some e), b)
  run_loaded b backend_config api_port (loaded cfg) =
      let store = register_all cfg.inbounds b.store in
      filled X (record b { store = store }) backend_config api_port cfg
        (add_storage_users P algo store cfg.inbounds cfg.raw)

  -- Start from where the statistics have a port.
  run_on_port : Backend X → String → Error ⊎ ℤ → Outcome × Backend X
  unfolding load_config run_loaded
  run_on_port b backend_config (inl e) = (returned (some e), b)
  run_on_port b backend_config (inr api_port) =
      run_loaded b backend_config api_port (load_config X b.world backend_config api_port)

  -- Start from where the configuration is chosen.
  run_chosen : Backend X → Error ⊎ String → Outcome × Backend X
  unfolding run_on_port
  run_chosen b (inl e) = (returned (some e), b)
  run_chosen b (inr backend_config) =
      let (port, w) = X.find_free_port b.world in
      run_on_port (record b { world = w }) backend_config port

  -- `Start`
  unfoldable pub start : Backend X → String → Outcome × Backend X
  unfolding chosen_config run_chosen
  start b backend_config =
      let (chosen, w) = chosen_config X b.world backend_config in
      run_chosen (record b { world = w }) chosen

  start_stopped : Backend X → String → Option Error → Outcome × Backend X
  unfolding start
  start_stopped b backend_config (some e) = (returned (some e), b)
  start_stopped b backend_config none = start b backend_config

  -- `Restart`
  unfoldable pub restart : Backend X → String → Outcome × Backend X
  unfolding stop start_stopped
  restart b backend_config = let (err, b') = stop X b in start_stopped b' backend_config err
