-- ===== src/Hysteria2/Lifecycle/Running.antt =====
-- internal/backend/hysteria2/backend.go: what a restart of hysteria2 leaves.
use nde.Prelude.{
  String, false, ◌⊎◌, inl, inr, Option, none, some, [], ◌∷◌, ◌==◌, ◌≡◌, ◌≢◌, refl, arith, ap, ◌∙◌,
  text_key, contains, Option-cases,
}
use nde.Prelude.Dict.{get, delete, get-put, get-delete}
use nde.Models.{ℤ, Fields}
use nde.Models.Objects.{field_at, set_field, field_at-set_field}
use nde.Backend.{Error}
use nde.Storage.{Memory, register_inbound, unregister_inbound}
use nde.Hysteria2.Config.{
  Config, loaded_from, content_of, load_config, register_inbounds, inbound_of, auth_entry,
  traffic_stats_entry, with_entries,
}
use nde.Hysteria2.Lifecycle.{
  Outside, Backend, Outcome, returned, start_auth_server, stop_auth_server, stop, proxy_started,
  rendered, run_loaded, run_secret, run_stats, run_auth, run_chosen, chosen_config, start,
  start_stopped, restart,
}

-- The configuration is the operator's but for the node's two entries.
pub record IsMade (api_port stats_port : ℤ) (secret : String) (operator cfg : Fields) : Type 0 where
  pub asks : field_at "auth" cfg ≡ auth_entry api_port
  pub counts : field_at "trafficStats" cfg ≡ traffic_stats_entry stats_port secret
  pub others :
      (key : String)
      → contains key ("auth" ∷ "trafficStats" ∷ []) ≡ false
      → field_at key cfg ≡ field_at key operator

with_entries-IsMade :
    (api_port stats_port : ℤ) (secret : String) (operator : Fields)
    → IsMade api_port stats_port secret operator (with_entries api_port stats_port secret operator)
unfolding with_entries contains
with_entries-IsMade api_port stats_port secret operator =
    let auth = auth_entry api_port in
    let stats = traffic_stats_entry stats_port secret in
    record {
      asks = ground (
        arith,
        field_at-set_field "trafficStats" "auth" stats (set_field "auth" auth operator),
        field_at-set_field "auth" "auth" auth operator,
      );
      counts = ground (
        arith,
        field_at-set_field "trafficStats" "trafficStats" stats (set_field "auth" auth operator),
      );
      others = λ key other. ground (
        arith,
        other,
        field_at-set_field "trafficStats" key stats (set_field "auth" auth operator),
        field_at-set_field "auth" key auth operator,
      );
    }

module _ (X : Outside) where
  -- What no start or stop changes: who may connect, the users and the other inbounds of the storage.
  pub record Kept (before b : Backend X) : Type 0 where
    pub access : b.users_by_pass ≡ before.users_by_pass
    pub users : b.store.users ≡ before.store.users
    pub others :
        (tag : String)
        → ("hysteria2" == tag) ≡ false
        → get tag b.store.inbounds ≡ get tag before.store.inbounds

  -- hysteria2 was started, as the last thing that was done in this world, with a text that renders a
  -- configuration, which asks the server of this backend for access, and counts traffic where this
  -- backend reads it; the storage has its inbound as the backend lists it.
  pub record Serves (b : Backend X) : Type 0 where
    pub text : String
    pub operator : Fields
    pub cfg : Fields
    pub port : ℤ
    pub origin : (w : X.World) × (text ≡ content_of (X.read_file w) b.raw_config)
    pub parsed : X.parse text ≡ inr (some operator)
    pub rendered_text : String
    pub renders : X.render cfg ≡ inr rendered_text
    pub runs : (w : X.World) × (X.run_proxy w rendered_text ≡ (none, b.world))
    pub listens : b.server ≡ some port
    pub made : IsMade port b.stats_port b.stats_secret operator cfg
    pub listed : b.inbounds ≡ inbound_of cfg ∷ []
    pub registered : get "hysteria2" b.store.inbounds ≡ some (inbound_of cfg)

  pub record Started (before : Backend X) (r : Outcome × Backend X) : Type 0 where
    pub kept : Kept before r.1
    pub serves : r.0 ≡ returned none → Serves r.1
    pub fails : r.0 ≢ returned none → r.1.server ≡ none

  -- The backend holds no server.
  record Idle (before b : Backend X) : Type 0 where
    kept : Kept before b
    no_server : b.server ≡ none

  failed-Started :
      (before b : Backend X) (e : Error) → Idle before b → Started before (returned (some e), b)
  failed-Started before b e idle = record {
    kept = idle.kept;
    serves = λ done. absurd (ground (arith, done));
    fails = λ failed. idle.no_server;
  }

  stop_auth_server_lem :
      (b : Backend X)
      → let b' = stop_auth_server X b in
        (b'.server ≡ none) × (b'.users_by_pass ≡ b.users_by_pass) × (b'.store ≡ b.store)
  unfolding stop_auth_server
  stop_auth_server_lem b = elim (Option-cases b.server) [
    | inl off ↦ rw (off, stop_auth_server) (refl, refl, refl)
    | inr (port, on) ↦ rw (on, stop_auth_server) (refl, refl, refl)
  ]

  -- The configuration is loaded, and its inbound is registered.
  record Ready (before b : Backend X) (raw : String) (stats_port : ℤ) (secret : String) (port : ℤ)
      (cfg : Config) : Type 0 where
    text : String
    operator : Fields
    origin : (w : X.World) × (text ≡ content_of (X.read_file w) raw)
    parsed : X.parse text ≡ inr (some operator)
    made : IsMade port stats_port secret operator cfg.raw
    tagged : cfg.inbound ≡ inbound_of cfg.raw
    registered : get "hysteria2" b.store.inbounds ≡ some cfg.inbound
    kept : Kept before b

  proxy_started-Started :
      (before b : Backend X) (raw : String) (stats_port : ℤ) (secret : String) (port : ℤ)
      (cfg : Config) (err : Option Error) (text : String) (w : X.World)
      → Ready before b raw stats_port secret port cfg
      → b.server ≡ some port
      → X.render cfg.raw ≡ inr text
      → X.run_proxy w text ≡ (err, b.world)
      → Started before (proxy_started X b raw stats_port secret cfg err)
  unfolding proxy_started
  proxy_started-Started before b raw stats_port secret port cfg (some e) text w r on made done =
      let (off, access, store) = stop_auth_server_lem b in
      let k = r.kept in
      failed-Started before (stop_auth_server X b) e (record {
        kept = record {
          access = access ∙ k.access;
          users = ap (λ (m : Memory). m.users) store ∙ k.users;
          others = λ tag other. ap (λ (m : Memory). get tag m.inbounds) store ∙ k.others tag other;
        };
        no_server = off;
      })
  proxy_started-Started before b raw stats_port secret port cfg none text w r on made ran =
      let k = r.kept in
      record {
        kept = record { access = k.access; users = k.users; others = k.others };
        serves = λ done. record {
          text = r.text;
          operator = r.operator;
          origin = r.origin;
          cfg = cfg.raw;
          port = port;
          parsed = r.parsed;
          rendered_text = text;
          renders = made;
          runs = (w, ran);
          listens = on;
          made = r.made;
          listed = ap (λ inb. inb ∷ []) r.tagged;
          registered = r.registered ∙ ap some r.tagged;
        };
        fails = λ failed. absurd (failed refl);
      }

  rendered-Started :
      (before b : Backend X) (raw : String) (port stats_port : ℤ) (secret : String) (cfg : Config)
      (text : Error ⊎ String)
      → Ready before b raw stats_port secret port cfg
      → b.server ≡ none
      → X.render cfg.raw ≡ text
      → Started before (rendered X b raw port stats_port secret cfg text)
  unfolding rendered start_auth_server
  rendered-Started before b raw port stats_port secret cfg (inl e) r off made =
      failed-Started before b e (record { kept = r.kept; no_server = off })
  rendered-Started before b raw port stats_port secret cfg (inr text) r off made =
      let b1 = start_auth_server X b port in
      let (err, w) = X.run_proxy b1.world text in
      let k = r.kept in
      proxy_started-Started before (record b1 { world = w }) raw stats_port secret port cfg err text
        b1.world
        (record {
          text = r.text;
          operator = r.operator;
          origin = r.origin;
          parsed = r.parsed;
          made = r.made;
          tagged = r.tagged;
          registered = r.registered;
          kept = record { access = k.access; users = k.users; others = k.others };
        })
        refl made refl

  run_loaded-Started :
      (before b : Backend X) (raw text : String) (port stats_port : ℤ) (secret : String)
      (parsed : Error ⊎ Option Fields)
      → X.parse text ≡ parsed
      → (w : X.World) × (text ≡ content_of (X.read_file w) raw)
      → Idle before b
      → Started before
          (run_loaded X b raw port stats_port secret (loaded_from port stats_port secret parsed))
  unfolding run_loaded loaded_from register_inbounds register_inbound inbound_of
  run_loaded-Started before b raw text port stats_port secret (inl e) parsed origin idle =
      failed-Started before b e idle
  run_loaded-Started before b raw text port stats_port secret (inr none) parsed origin idle =
      record {
        kept = idle.kept;
        serves = λ done. absurd (ground (arith, done));
        fails = λ failed. idle.no_server;
      }
  run_loaded-Started before b raw text port stats_port secret (inr (some operator)) parsed origin
        idle =
      let cfg : Config =
        let made = with_entries port stats_port secret operator in
        record { raw = made; inbound = inbound_of made } in
      let k = idle.kept in
      let put_one = λ (tag : String). get-put "hysteria2" tag cfg.inbound b.store.inbounds in
      rendered-Started before (record b { store = register_inbounds cfg b.store }) raw port
        stats_port secret cfg (X.render cfg.raw)
        (record {
          text = text;
          operator = operator;
          origin = origin;
          parsed = parsed;
          made = with_entries-IsMade port stats_port secret operator;
          tagged = refl;
          registered = put_one "hysteria2";
          kept = record {
            access = k.access;
            users = k.users;
            others = λ tag other. ground (arith, put_one tag, other, k.others tag other);
          };
        })
        idle.no_server refl

  Idle-world :
      (before b : Backend X) (w : X.World) → Idle before b → Idle before (record b { world = w })
  Idle-world before b w idle =
      let k = idle.kept in
      record {
        kept = record { access = k.access; users = k.users; others = k.others };
        no_server = idle.no_server;
      }

  run_secret-Started :
      (before b : Backend X) (raw : String) (port stats_port : ℤ) (secret : Error ⊎ String)
      → Idle before b
      → Started before (run_secret X b raw port stats_port secret)
  unfolding run_secret load_config
  run_secret-Started before b raw port stats_port (inl e) idle = failed-Started before b e idle
  run_secret-Started before b raw port stats_port (inr secret) idle =
      let text = content_of (X.read_file b.world) raw in
      run_loaded-Started before b raw text port stats_port secret (X.parse text) refl
        (b.world, refl) idle

  run_stats-Started :
      (before b : Backend X) (raw : String) (port : ℤ) (stats_port : Error ⊎ ℤ)
      → Idle before b
      → Started before (run_stats X b raw port stats_port)
  unfolding run_stats
  run_stats-Started before b raw port (inl e) idle = failed-Started before b e idle
  run_stats-Started before b raw port (inr stats_port) idle =
      let (secret, w) = X.random_hex b.world in
      run_secret-Started before (record b { world = w }) raw port stats_port secret
        (Idle-world before b w idle)

  run_auth-Started :
      (before b : Backend X) (raw : String) (port : Error ⊎ ℤ)
      → Idle before b
      → Started before (run_auth X b raw port)
  unfolding run_auth
  run_auth-Started before b raw (inl e) idle = failed-Started before b e idle
  run_auth-Started before b raw (inr port) idle =
      let (stats_port, w) = X.find_free_port b.world in
      run_stats-Started before (record b { world = w }) raw port stats_port
        (Idle-world before b w idle)

  run_chosen-Started :
      (before b : Backend X) (chosen : Error ⊎ String)
      → Idle before b
      → Started before (run_chosen X b chosen)
  unfolding run_chosen
  run_chosen-Started before b (inl e) idle = failed-Started before b e idle
  run_chosen-Started before b (inr raw) idle =
      let (port, w) = X.find_free_port b.world in
      run_auth-Started before (record b { world = w }) raw port (Idle-world before b w idle)

  fresh_start-Started :
      (before b : Backend X) (raw : String) → Idle before b → Started before (start X b raw)
  unfolding start
  fresh_start-Started before b raw idle =
      let (chosen, w) = chosen_config X b.world raw in
      run_chosen-Started before (record b { world = w }) chosen (Idle-world before b w idle)

  pub start-Started : (b : Backend X) (raw : String) → b.server ≡ none → Started b (start X b raw)
  start-Started b raw no_server =
      let kept : Kept b b = record { access = refl; users = refl; others = λ tag other. refl } in
      fresh_start-Started b b raw (record { kept = kept; no_server = no_server })

  start_stopped-Started :
      (before b : Backend X) (raw : String) (err : Option Error)
      → Idle before b
      → Started before (start_stopped X b raw err)
  unfolding start_stopped
  start_stopped-Started before b raw (some e) idle = failed-Started before b e idle
  start_stopped-Started before b raw none idle = fresh_start-Started before b raw idle

  stop-Idle : (b : Backend X) → Idle b (stop X b).1
  unfolding stop unregister_inbound
  stop-Idle b =
      let (off, access, store) = stop_auth_server_lem b in
      record {
        kept = record {
          access = access;
          users = ap (λ (m : Memory). m.users) store;
          others = λ tag other.
              ap (λ (m : Memory). get tag (delete "hysteria2" m.inbounds)) store
              ∙ ground (arith, other, get-delete "hysteria2" tag b.store.inbounds);
        };
        no_server = off;
      }

  -- Restart of hysteria2, whatever fails: who may connect stays as it was, and so do the users and the
  -- other inbounds of the storage. When it gives nil, the last that it did was to start hysteria2,
  -- without an error, with the rendered text of a configuration, which is the one that was read but for
  -- two entries: it asks for access at the port of the server that the backend holds, and it serves its
  -- statistics on the port and with the secret that the backend has; and the storage has its inbound.
  -- When it does not give nil, the backend holds no server.
  pub restart-Started :
      (b : Backend X) (backend_config : String) → Started b (restart X b backend_config)
  unfolding restart
  restart-Started b raw = start_stopped-Started b (stop X b).1 raw (stop X b).0 (stop-Idle b)
