-- ===== src/Xray/Lifecycle/Serving.antt =====
-- internal/backend/xray/backend.go, Start and Restart: on every path the inbounds that the backend
-- says it has are registered in the storage.
use nde.Prelude.{
  String, Bool, true, false, not, ◌&&◌, ◌||◌, ◌⊎◌, inl, inr, Option, none, some, ◌≡◌, refl, arith,
  ap, ◌∙◌, sym, subst,
}
use nde.Models.{ℤ}
use nde.Backend.{Error}
use nde.Storage.{has_tag}
use nde.Storage.Lookups.{registered}
use nde.Util.Json.{parse_json_or_path}
use nde.Xray.Config.Load.{
  Config, Loaded, panicked, rejected, loaded, loaded_from, load_config, register_inbounds,
}
use nde.Xray.Config.Load
use nde.Xray.Lifecycle.{
  Outside, idle, working, cancelled, Backend, Outcome, returned, contains_tag, stop,
  start_repopulate, api_ready, proxy_started, run_config, run_loaded, run_on_port, run_chosen,
  start, start_stopped, restart, chosen_config, wait_api_ready,
}
use nde.Storage.Inbounds.{registered-register_all}
use nde.Xray.Lifecycle.Registered.{IsIndexed, stop-registered, tagged}

module _ (X : Outside) where
  pub record IsServing (b : Backend X) : Type 0 where
    pub indexed : IsIndexed b.runtime_cfg
    pub served : (tag : String) → contains_tag X b tag ≡ true → registered b.store tag ≡ true

  -- What a start from `b` ends in.
  pub record Started (b : Backend X) (r : Outcome × Backend X) : Type 0 where
    pub serving : IsServing r.1
    pub gained :
        r.0 ≡ returned none
        → (tag : String)
        → registered r.1.store tag ≡ (contains_tag X r.1 tag || registered b.store tag)

  stop-IsServing : (b : Backend X) → IsServing b → IsServing (stop X b).1
  unfolding stop contains_tag
  stop-IsServing b s = record { indexed = tt; served = λ tag has. absurd (ground (arith, has)) }

  failed-Started : (b b' : Backend X) (e : Error) → IsServing b' → Started b (returned (some e), b')
  failed-Started b b' e s = record { serving = s; gained = λ done. absurd (ground (arith, done)) }

  start_repopulate_kept :
      (b : Backend X)
      → ((start_repopulate X b).store ≡ b.store)
        × ((start_repopulate X b).runtime_cfg ≡ b.runtime_cfg)
  unfolding start_repopulate
  start_repopulate_kept b =
      elim b.worker
        as (λ k.
          let r : Backend X = elim k [
            | idle ↦ record b { worker = working }
            | working ↦ b
            | cancelled ↦ b
          ] in
          (r.store ≡ b.store) × (r.runtime_cfg ≡ b.runtime_cfg)) [
            | idle ↦ (refl, refl)
            | working ↦ (refl, refl)
            | cancelled ↦ (refl, refl)
          ]

  contains_tag_of : Option Config → String → Bool
  unfolding Load.contains_tag
  contains_tag_of cfg tag = elim cfg [ none ↦ false | some c ↦ Load.contains_tag c tag ]

  -- The backend has inbounds of its own over those of `before`.
  record Gained (before b : Backend X) : Type 0 where
    indexed : IsIndexed b.runtime_cfg
    gained :
        (tag : String)
        → registered b.store tag ≡ (contains_tag X b tag || registered before.store tag)

  Gained-IsServing : {before b : Backend X} → Gained before b → IsServing b
  Gained-IsServing g = record {
    indexed = g.indexed;
    served = λ tag has. ground (arith, g.gained tag, has);
  }

  start_repopulate-Started :
      (before b : Backend X)
      → Gained before b
      → Started before (returned none, start_repopulate X b)
  unfolding contains_tag contains_tag_of
  start_repopulate-Started before b g =
      let kept = start_repopulate_kept b in
      let b' = start_repopulate X b in
      let g' : Gained before b' = record {
        indexed = subst (λ c. IsIndexed c) (sym kept.1) g.indexed;
        gained = λ tag.
            ap (λ m. registered m tag) kept.0
            ∙ g.gained tag
            ∙ ap (λ c. contains_tag_of c tag || registered before.store tag) (sym kept.1);
      } in
      record { serving = Gained-IsServing g'; gained = λ done. g'.gained }

  api_ready-Started :
      (before b : Backend X) (err : Option Error)
      → Gained before b
      → Started before (api_ready X b err)
  unfolding api_ready contains_tag
  api_ready-Started before b (some e) g =
      failed-Started before (stop X b).1 _ (stop-IsServing b (Gained-IsServing g))
  api_ready-Started before b none g =
      start_repopulate-Started before (record b { last_start_time = some (X.now b.world) })
        (record { indexed = g.indexed; gained = g.gained })

  -- The configuration's inbounds are registered over those of `before`, whose own it had.
  record Registered (before b : Backend X) (cfg : Config) : Type 0 where
    indexed : IsIndexed (some cfg)
    serving : IsServing b
    gained :
        (tag : String)
        → registered b.store tag ≡ (has_tag tag cfg.inbounds || registered before.store tag)

  proxy_start_repopulate-Started :
      (before b : Backend X) (raw : String) (port : ℤ) (cfg : Config) (err : Option Error)
      → Registered before b cfg
      → Started before (proxy_started X b raw port cfg err)
  unfolding proxy_started contains_tag
  proxy_start_repopulate-Started before b raw port cfg (some e) r =
      failed-Started before b e r.serving
  proxy_start_repopulate-Started before b raw port cfg none r =
      let ready : Backend X = record b {
        runtime_cfg = some cfg;
        api = some port;
        raw_config = raw;
        world = (wait_api_ready X b.world).1;
      } in
      api_ready-Started before ready (wait_api_ready X b.world).0 (record {
        indexed = r.indexed;
        gained = λ tag.
            r.gained tag ∙ ap (λ h. h || registered before.store tag) (tagged X cfg tag r.indexed);
      })

  run_config-Started :
      (b : Backend X) (raw : String) (port : ℤ) (cfg : Config) (json : Error ⊎ String)
      → IsIndexed (some cfg)
      → IsServing b
      → Started b (run_config X b raw port cfg json)
  unfolding run_config register_inbounds contains_tag
  run_config-Started b raw port cfg (inl e) indexed s = failed-Started b b e s
  run_config-Started b raw port cfg (inr json) indexed s =
      let gained = λ (tag : String). registered-register_all tag cfg.inbounds b.store in
      proxy_start_repopulate-Started b
        (record b { store = register_inbounds cfg b.store; world = (X.run_proxy b.world json).1 })
        raw port cfg (X.run_proxy b.world json).0
        (record {
          indexed = indexed;
          gained = gained;
          serving = record {
            indexed = s.indexed;
            served = λ tag has. ground (arith, gained tag, s.served tag has);
          };
        })

  abbrev LoadedIndexed : Loaded → Type 0
  LoadedIndexed panicked = Unit
  LoadedIndexed (rejected e) = Unit
  LoadedIndexed (loaded cfg) = IsIndexed (some cfg)

  load_config-LoadedIndexed :
      (read : String → Error ⊎ String) (public_key : String → Option String) (flow raw : String)
      (port : ℤ)
      → LoadedIndexed (load_config X.parse read public_key flow raw port)
  unfolding load_config loaded_from
  load_config-LoadedIndexed read public_key flow raw port =
      elim (parse_json_or_path X.parse read raw)
        as (λ r. LoadedIndexed (loaded_from public_key flow port r)) [
          | inl e ↦ tt
          | inr none ↦ tt
          | inr (some cfg) ↦ refl
        ]

  run_loaded-Started :
      (b : Backend X) (raw : String) (port : ℤ) (l : Loaded)
      → LoadedIndexed l
      → IsServing b
      → Started b (run_loaded X b raw port l)
  unfolding run_loaded
  run_loaded-Started b raw port panicked indexed s = record {
    serving = s;
    gained = λ done. absurd (ground (arith, done));
  }
  run_loaded-Started b raw port (rejected e) indexed s = failed-Started b b e s
  run_loaded-Started b raw port (loaded cfg) indexed s =
      run_config-Started b raw port cfg (X.marshal (some cfg.raw)) indexed s

  run_on_port-Started :
      (b : Backend X) (raw : String) (port : Error ⊎ ℤ)
      → IsServing b
      → Started b (run_on_port X b raw port)
  unfolding run_on_port
  run_on_port-Started b raw (inl e) s = failed-Started b b e s
  run_on_port-Started b raw (inr port) s =
      run_loaded-Started b raw port
        (load_config X.parse (X.read_file b.world) (X.public_key b.world) b.flow_default raw port)
        (load_config-LoadedIndexed (X.read_file b.world) (X.public_key b.world) b.flow_default raw
          port)
        s

  run_chosen-Started :
      (b : Backend X) (chosen : Error ⊎ String) → IsServing b → Started b (run_chosen X b chosen)
  unfolding run_chosen contains_tag
  run_chosen-Started b (inl e) s = failed-Started b b e s
  run_chosen-Started b (inr raw) s =
      let b' : Backend X = record b { world = (X.find_free_port b.world).1 } in
      let after =
        run_on_port-Started b' raw (X.find_free_port b.world).0
          (record { indexed = s.indexed; served = s.served }) in
      record { serving = after.serving; gained = after.gained }

  -- Start from a backend whose inbounds are registered: whatever fails on the way, all inbounds that
  -- the backend says it has are registered then; and when it gives nil, the storage has those
  -- inbounds besides the ones that it had, and no others.
  pub start-Started :
      (b : Backend X) (backend_config : String) → IsServing b → Started b (start X b backend_config)
  unfolding start contains_tag
  start-Started b raw s =
      let (chosen, w) = chosen_config X b.world raw in
      let after =
        run_chosen-Started (record b { world = w }) chosen
          (record { indexed = s.indexed; served = s.served }) in
      record { serving = after.serving; gained = after.gained }

  start_stopped-Started :
      (b : Backend X) (raw : String) (err : Option Error)
      → IsServing b
      → Started b (start_stopped X b raw err)
  unfolding start_stopped
  start_stopped-Started b raw (some e) s = failed-Started b b e s
  start_stopped-Started b raw none s = start-Started b raw s

  -- Restart of a backend whose inbounds are registered: whatever fails, all inbounds that the
  -- backend says it has are registered then; and when it gives nil, an inbound is registered
  -- exactly if the new configuration has it, or it was registered and the old one did not have it.
  pub restart-registered :
      (b : Backend X) (backend_config : String)
      → IsServing b
      → let r = restart X b backend_config in
        IsServing r.1
        × (r.0 ≡ returned none
            → (tag : String)
            → registered r.1.store tag
              ≡ (contains_tag X r.1 tag || (not (contains_tag X b tag) && registered b.store tag)))
  unfolding restart
  restart-registered b raw s =
      let b' = (stop X b).1 in
      let after = start_stopped-Started b' raw (stop X b).0 (stop-IsServing b s) in
      (
        after.serving,
        λ done tag.
            after.gained done tag
            ∙ ap (λ h. contains_tag X (restart X b raw).1 tag || h)
                (stop-registered X b tag s.indexed).1,
      )
