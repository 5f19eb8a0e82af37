-- ===== src/Hysteria2/Lifecycle.antt =====
-- internal/backend/hysteria2/backend.go: starting, stopping and restarting hysteria2 and the server that
-- it asks for access.
pub mod Running
mod Tests
use nde.Prelude.{
  String, ◌⊎◌, inl, inr, Option, none, some, List, [], ◌∷◌, ◌==◌, text_key, if◌then◌else◌,
}
use nde.Prelude.Dict.{Dict}
use nde.Models.{ℤ, Fields, User, Inbound}
use nde.Backend.{Error}
use nde.Storage.{Memory, unregister_inbound}
use nde.Hysteria2.Config.{
  Config, Loaded, panicked, rejected, loaded, load_config, register_inbounds,
}

-- Files, ports, processes and other packages. `run_proxy` and `stop_proxy` are the runner's Start and
-- Stop, `listen` makes a server listen on a port
-- in a goroutine, whose error is dropped, and waits, `shut_down` ends the server on a port, and
-- `random_hex` is the function of that name, for 16 bytes.
pub record Outside : Type 1 where
  pub World : Type 0
  pub parse : String → Error ⊎ Option Fields
  pub render : Fields → Error ⊎ String
  pub read_file : World → String → Error ⊎ String
  pub read_config : World → Error ⊎ String
  pub write_config : World → String → Option Error × World
  pub find_free_port : World → (Error ⊎ ℤ) × World
  pub random_hex : World → (Error ⊎ String) × World
  pub listen : World → ℤ → World
  pub shut_down : World → ℤ → World
  pub run_proxy : World → String → Option Error × World
  pub stop_proxy : World → Option Error × World

-- `server` has the port of the http.Server that the backend holds, none for nil.
pub record Backend (X : Outside) : Type 0 where
  pub users_by_pass : Dict String User
  pub inbounds : List Inbound
  pub server : Option ℤ
  pub stats_port : ℤ
  pub stats_secret : String
  pub raw_config : String
  pub store : Memory
  pub world : X.World

-- What a call ends in: nil or an error, or the node is gone.
pub data Outcome : Type 0 where
  returned : Option Error → Outcome
  crashed : Outcome

module _ (X : Outside) where
  -- `startAuthServer`, which gives no error.
  unfoldable pub start_auth_server : Backend X → ℤ → Backend X
  start_auth_server b port = record b { server = some port; world = X.listen b.world port }

  -- `stopAuthServer`; both callers drop its error.
  unfoldable pub stop_auth_server : Backend X → Backend X
  stop_auth_server b = elim b.server [
    | none ↦ record b { server = none }
    | some port ↦ record b { server = none; world = X.shut_down b.world port }
  ]

  -- `Stop`
  unfoldable pub stop : Backend X → Option Error × Backend X
  unfolding stop_auth_server unregister_inbound
  stop b =
      let b1 = stop_auth_server b in
      let (err, w) = X.stop_proxy b1.world in
      (err, record b1 { store = unregister_inbound b1.store "hysteria2"; world = w })

  -- The end of Start, with the result of the runner's Start.
  proxy_started : Backend X → String → ℤ → String → Config → Option Error → Outcome × Backend X
  unfolding stop_auth_server
  proxy_started b backend_config stats_port secret cfg (some e) =
      (returned (some e), stop_auth_server b)
  proxy_started b backend_config stats_port secret cfg none = (
    returned none,
    record b {
      stats_port = stats_port;
      stats_secret = secret;
      inbounds = cfg.inbound ∷ [];
      raw_config = backend_config;
    },
  )

  -- Start from where the configuration is rendered, with the port of the auth server.
  rendered : Backend X → String → ℤ → ℤ → String → Config → Error ⊎ String → Outcome × Backend X
  unfolding proxy_started start_auth_server
  rendered b backend_config auth_port stats_port secret cfg (inl e) = (returned (some e), b)
  rendered b backend_config auth_port stats_port secret cfg (inr text) =
      let b1 = start_auth_server b auth_port in
      let (err, w) = X.run_proxy b1.world text in
      proxy_started (record b1 { world = w }) backend_config stats_port secret cfg err

  -- Start from where the configuration is loaded.
  run_loaded : Backend X → String → ℤ → ℤ → String → Loaded → Outcome × Backend X
  unfolding register_inbounds rendered
  run_loaded b backend_config auth_port stats_port secret panicked = (crashed, b)
  run_loaded b backend_config auth_port stats_port secret (rejected e) = (returned (some e), b)
  run_loaded b backend_config auth_port stats_port secret (loaded cfg) =
      rendered (record b { store = register_inbounds cfg b.store }) backend_config auth_port
        stats_port secret cfg (X.render cfg.raw)

  -- Start from where there is a secret or not.
  run_secret : Backend X → String → ℤ → ℤ → Error ⊎ String → Outcome × Backend X
  unfolding load_config run_loaded
  run_secret b backend_config auth_port stats_port (inl e) = (returned (some e), b)
  run_secret b backend_config auth_port stats_port (inr secret) =
      run_loaded b backend_config auth_port stats_port secret
        (load_config X.parse (X.read_file b.world) backend_config auth_port stats_port secret)

  -- Start from where the statistics have a port or not.
  run_stats : Backend X → String → ℤ → Error ⊎ ℤ → Outcome × Backend X
  unfolding run_secret
  run_stats b backend_config auth_port (inl e) = (returned (some e), b)
  run_stats b backend_config auth_port (inr stats_port) =
      let (secret, w) = X.random_hex b.world in
      run_secret (record b { world = w }) backend_config auth_port stats_port secret

  -- Start from where the auth server has a port or not.
  run_auth : Backend X → String → Error ⊎ ℤ → Outcome × Backend X
  unfolding run_stats
  run_auth b backend_config (inl e) = (returned (some e), b)
  run_auth b backend_config (inr auth_port) =
      let (stats_port, w) = X.find_free_port b.world in
      run_stats (record b { world = w }) backend_config auth_port stats_port

  -- Start from where the configuration is chosen.
  run_chosen : Backend X → Error ⊎ String → Outcome × Backend X
  unfolding run_auth
  run_chosen b (inl e) = (returned (some e), b)
  run_chosen b (inr backend_config) =
      let (auth_port, w) = X.find_free_port b.world in
      run_auth (record b { world = w }) backend_config auth_port

  -- The configuration to start with: that of the file, where none is given.
  unfoldable pub chosen_config : X.World → String → (Error ⊎ String) × X.World
  chosen_config w backend_config =
      let (err, w') = X.write_config w backend_config in
      if backend_config == ""
      then (X.read_config w, w)
      else (elim err [ none ↦ inr backend_config | some e ↦ inl e ], w')

  -- `Start`
  unfoldable pub start : Backend X → String → Outcome × Backend X
  unfolding chosen_config run_chosen
  start b backend_config =
      let (chosen, w) = chosen_config b.world backend_config in
      run_chosen (record b { world = w }) chosen

  start_stopped : Backend X → String → Option Error → Outcome × Backend X
  unfolding start
  start_stopped b backend_config (some e) = (returned (some e), b)
  start_stopped b backend_config none = start b backend_config

  -- `Restart`
  unfoldable pub restart : Backend X → String → Outcome × Backend X
  unfolding stop start_stopped
  restart b backend_config = let (err, b') = stop b in start_stopped b' backend_config err
