-- ===== src/Xray/Lifecycle/Failing.antt =====
-- internal/backend/xray/backend.go, Start: what is left where the proxy does not start, or where the
-- configuration is a JSON null.
use nde.Prelude.{
  String, Bool, false, not, ◌&&◌, ◌||◌, ◌⊎◌, inr, Option, none, some, ◌≡◌, refl, ap, ◌∙◌, text_key,
}
use nde.Models.{ℤ}
use nde.Backend.{Error}
use nde.Storage.Lookups.{registered}
use nde.Util.Json.{parse_json_or_path}
use nde.Xray.Config.Load.{Config, loaded, load_config, register_inbounds, panicked, loaded_from}
use nde.Xray.Config.Load
use nde.Xray.Lifecycle.{
  Outside, Backend, returned, crashed, contains_tag, stop, run_loaded, run_on_port, run_chosen,
  start, chosen_config, proxy_started, run_config,
}
use nde.Storage.Inbounds.{registered-register_all}
use nde.Xray.Lifecycle.Registered.{IsIndexed, stop-registered, tagged}

contained_in : Option Config → String → Bool
unfolding Load.contains_tag
contained_in cfg tag = elim cfg [ none ↦ false | some c ↦ Load.contains_tag c tag ]

module _ (X : Outside) where
  -- The runner's Start gives an error for the configuration.
  pub record ProxyFails (b : Backend X) (backend_config : String) (cfg : Config) (e : Error)
      : Type 0 where
    pub raw : String
    pub port : ℤ
    pub chosen_world : X.World
    pub port_world : X.World
    pub json : String
    pub chosen : chosen_config X b.world backend_config ≡ (inr raw, chosen_world)
    pub found : X.find_free_port chosen_world ≡ (inr port, port_world)
    pub accepted :
        load_config X.parse
          (X.read_file port_world)
          (X.public_key port_world)
          b.flow_default
          raw
          port
        ≡ loaded cfg
    pub marshalled : X.marshal (some cfg.raw) ≡ inr json
    pub failed : (X.run_proxy port_world json).0 ≡ some e

  start-failed :
      (b : Backend X) (backend_config : String) (cfg : Config) (e : Error)
      (f : ProxyFails b backend_config cfg e)
      → start X b backend_config ≡ (
        returned (some e),
        record b {
          store = register_inbounds cfg b.store;
          world = (X.run_proxy f.port_world f.json).1;
        },
      )
  unfolding start run_chosen run_on_port run_loaded run_config proxy_started
  start-failed b backend_config cfg e f =
      rw (f.chosen, f.found, f.accepted, f.marshalled, f.failed) refl

  -- Where the runner's Start gives an error for a configuration, running or not, the backend says that it
  -- has the inbounds that it had before, while the storage has those of the new configuration besides
  -- its own; and a Stop that follows takes out the backend's old inbounds only.
  pub start-fails_registered :
      (b : Backend X) (backend_config : String) (cfg : Config) (e : Error) (tag : String)
      → ProxyFails b backend_config cfg e
      → IsIndexed (some cfg)
      → IsIndexed b.runtime_cfg
      → let b' = (start X b backend_config).1 in
        (contains_tag X b' tag ≡ contains_tag X b tag)
        × (registered b'.store tag ≡ (Load.contains_tag cfg tag || registered b.store tag))
        × (registered (stop X b').1.store tag
            ≡ (not (contains_tag X b tag) && (Load.contains_tag cfg tag || registered b.store tag)))
  unfolding contains_tag register_inbounds
  start-fails_registered b backend_config cfg e tag f indexed old =
      let b' : Backend X = record b {
        store = register_inbounds cfg b.store;
        world = (X.run_proxy f.port_world f.json).1;
      } in
      let there : registered b'.store tag ≡ (Load.contains_tag cfg tag || registered b.store tag) =
        registered-register_all tag cfg.inbounds b.store
        ∙ ap (λ h. h || registered b.store tag) (tagged X cfg tag indexed) in
      rw (start-failed b backend_config cfg e f) (
        refl,
        there,
        (stop-registered X b' tag old).1 ∙ ap (λ h. not (contains_tag X b tag) && h) there,
      )

  parse_json_or_path-null :
      (read : String → Error ⊎ String) (raw : String)
      → X.parse raw ≡ inr none
      → parse_json_or_path X.parse read raw ≡ inr none
  unfolding parse_json_or_path
  parse_json_or_path-null read raw parsed = rw (parsed, parse_json_or_path) refl

  load_config-null :
      (read : String → Error ⊎ String) (public_key : String → Option String) (flow raw : String)
      (port : ℤ)
      → X.parse raw ≡ inr none
      → load_config X.parse read public_key flow raw port ≡ panicked
  unfolding load_config loaded_from
  load_config-null read public_key flow raw port parsed =
      ap (λ r. loaded_from public_key flow port r) (parse_json_or_path-null read raw parsed)

  -- A configuration whose text is a JSON null ends the node.
  pub start-crashes :
      (b : Backend X) (backend_config : String) (port : ℤ) (w w' : X.World)
      → chosen_config X b.world backend_config ≡ (inr backend_config, w)
      → X.find_free_port w ≡ (inr port, w')
      → X.parse backend_config ≡ inr none
      → (start X b backend_config).0 ≡ crashed
  unfolding start run_chosen run_on_port run_loaded
  start-crashes b backend_config port w w' chosen found parsed =
      rw
        (
          chosen,
          found,
          load_config-null (X.read_file w') (X.public_key w') b.flow_default backend_config port
              parsed,
        )
        refl
