-- ===== src/Singbox/Lifecycle/Served.antt =====
-- internal/backend/singbox/backend.go, Start and Restart: what sing-box serves then, and which inbounds
-- are registered.
use nde.Prelude.{
  String, true, false, ◌||◌, ◌⊎◌, inl, inr, Option, none, some, List, [], ◌∷◌, map, ◌==◌, ◌≡◌, refl,
  arith, ap, ◌∙◌, sym, subst, text_key, contains, ==_iff, Option-cases, Bool-cases,
}
use nde.Models.{ℤ, Any, Items, nil, cons, Fields, Inbound}
use nde.Models.Objects.{field_at, to_map, to_items}
use nde.Backend.{Error}
use nde.Storage.{Memory, has_tag}
use nde.Storage.Lookups.{registered}
use nde.Storage.Inbounds.{register_all, registered-register_all}
use nde.Auth.{Packages, AuthAlgorithm}
use nde.Util.Json.{parse_json_or_path}
use nde.Singbox.Config.{to_string, has_inbound}
use nde.Singbox.Config
use nde.Singbox.Config.Accounts.{accounts}
use nde.Singbox.Config.Inbounds.{
  apply_api, resolved, is_allowed, resolve_one, resolve_items, resolve_inbounds,
}
use nde.Singbox.Files.{Outside, save_config}
use nde.Singbox.Updates.Loaded.{IsLoaded, InSync}
use nde.Singbox.Lifecycle.{
  Config, Loaded, panicked, rejected, loaded, loaded_from, Backend, Outcome, returned,
  add_storage_users, contains_tag, load_config, chosen_config, proxy_started, saved, marshalled,
  filled, run_loaded, run_on_port, run_chosen, start,
}
use nde.Singbox.Lifecycle.Users.{holds, inbound_in, wanted, AllIn, holds-add_storage_users}

contains-map :
    (tag : String) (inbs : List Inbound)
    → contains tag (map (λ (inb : Inbound). inb.tag) inbs) ≡ has_tag tag inbs
unfolding contains has_tag
contains-map tag [] = refl
contains-map tag (inb ∷ rest) = ground (arith, contains-map tag rest)

-- Each inbound that is resolved is one of the configuration's, under its tag.
Tagged : Option Inbound → Any → Type 0
unfolding Config.has_tag
Tagged none item = Unit
Tagged (some inb) item = ((inb.tag == "") ≡ false) × (Config.has_tag inb.tag item ≡ true)

resolve_one-Tagged :
    (public_key : String → String) (item : Any) → Tagged (resolve_one public_key (to_map item)) item
unfolding resolve_one resolved Tagged Config.has_tag
resolve_one-Tagged public_key item =
    let tag = to_string (field_at "tag" (to_map item)) in
    elim (Bool-cases (is_allowed (to_string (field_at "type" (to_map item))))) [
      | inr other ↦ rw other tt
      | inl fits ↦ rw fits (elim (Bool-cases (tag == "")) [
        | inl empty ↦ rw empty tt
        | inr named ↦ rw named (named, (==_iff tag tag).1 refl)
      ])
    ]

abbrev EachIn : List Inbound → Items → Type 0
EachIn [] items = Unit
EachIn (inb ∷ rest) items =
    ((inb.tag == "") ≡ false) × ((has_inbound inb.tag items ≡ true) × EachIn rest items)

EachIn-cons :
    (inbs : List Inbound) (item : Any) (items : Items)
    → EachIn inbs items
    → EachIn inbs (cons item items)
unfolding has_inbound
EachIn-cons [] item items all = tt
EachIn-cons (inb ∷ rest) item items all =
    (all.0, (ground (arith, all.1.0), EachIn-cons rest item items all.1.1))

resolve_items-EachIn :
    (public_key : String → String) (items : Items) → EachIn (resolve_items public_key items) items
unfolding resolve_items has_inbound Tagged
resolve_items-EachIn public_key nil = tt
resolve_items-EachIn public_key (cons item rest) =
    let later =
      EachIn-cons (resolve_items public_key rest) item rest
        (resolve_items-EachIn public_key rest) in
    let one = resolve_one-Tagged public_key item in
    elim (Option-cases (resolve_one public_key (to_map item))) [
      | inl out ↦ rw (out, resolve_items) later
      | inr (inb, found) ↦
          let it : Tagged (some inb) item = rw found at one in
          rw (found, resolve_items) (it.0, (ground (arith, it.1), later))
    ]

EachIn-AllIn :
    (inbs : List Inbound) (raw : Fields)
    → EachIn inbs (to_items (field_at "inbounds" raw))
    → AllIn inbs raw
unfolding inbound_in
EachIn-AllIn [] raw all = tt
EachIn-AllIn (inb ∷ rest) raw all = (all.0, (all.1.0, EachIn-AllIn rest raw all.1.1))

resolve_inbounds-AllIn :
    (public_key : String → String) (cfg : Fields) → AllIn (resolve_inbounds public_key cfg) cfg
unfolding resolve_inbounds
resolve_inbounds-AllIn public_key cfg =
    EachIn-AllIn (resolve_inbounds public_key cfg) cfg
      (resolve_items-EachIn public_key (to_items (field_at "inbounds" cfg)))

abbrev IsSound : Loaded → Type 0
IsSound panicked = Unit
IsSound (rejected e) = Unit
IsSound (loaded cfg) =
    AllIn cfg.inbounds cfg.raw × (cfg.by_tag ≡ map (λ (inb : Inbound). inb.tag) cfg.inbounds)

module _ (X : Outside) where
  load_config-IsSound : (w : X.World) (raw : String) (port : ℤ) → IsSound (load_config X w raw port)
  unfolding load_config loaded_from
  load_config-IsSound w raw port =
      elim (parse_json_or_path X.parse (X.read_file w) raw)
        as (λ r. IsSound (loaded_from (X.public_key w) port r)) [
          | inl e ↦ tt
          | inr none ↦ tt
          | inr (some cfg) ↦ (resolve_inbounds-AllIn (X.public_key w) (apply_api port cfg), refl)
        ]

  -- A backend as it should be between calls.
  pub record IsServing (b : Backend X) : Type 0 where
    pub in_sync : InSync X (b.world, b.updates)
    pub indexed : b.by_tag ≡ map (λ (inb : Inbound). inb.tag) b.inbounds
    pub served : (tag : String) → contains_tag X b tag ≡ true → registered b.store tag ≡ true

  -- sing-box was started with the configuration that was loaded from `raw_config`, and with the users of
  -- the storage, saved at the path that it was started with.
  pub record Running (before : Memory) (b : Backend X) : Type 0 where
    pub world : X.World
    pub port : ℤ
    pub cfg : Fields
    pub raw : Fields
    pub read :
        load_config X world b.raw_config port
        ≡ loaded (record { raw = cfg; inbounds = b.inbounds; by_tag = b.by_tag })
    pub counted : b.stats ≡ some port
    pub current : b.updates.runtime_cfg ≡ some raw
    pub serves : IsLoaded X b.world raw
    pub exact :
        (t ident : String)
        → (ident == "") ≡ false
        → holds ident (accounts t raw)
          ≡ (holds ident (accounts t cfg) || wanted t ident b.store b.inbounds)
    pub gained :
        (tag : String) → registered b.store tag ≡ (contains_tag X b tag || registered before tag)

  -- What a start ends in.
  pub record Started (before : Memory) (r : Outcome × Backend X) : Type 0 where
    pub serving : IsServing r.1
    pub runs : r.0 ≡ returned none → Running before r.1

  -- A backend that has no configuration.
  pub record IsIdle (b : Backend X) : Type 0 where
    pub off : b.updates.runtime_cfg ≡ none
    pub indexed : b.by_tag ≡ map (λ (inb : Inbound). inb.tag) b.inbounds
    pub served : (tag : String) → contains_tag X b tag ≡ true → registered b.store tag ≡ true

  IsIdle-IsServing : (b : Backend X) → IsIdle b → IsServing b
  IsIdle-IsServing b idle = record {
    in_sync = λ cfg on clean. absurd (ground (arith, on, idle.off));
    indexed = idle.indexed;
    served = idle.served;
  }

  failed-Started :
      (before : Memory) (b : Backend X) (e : Error)
      → IsIdle b
      → Started before (returned (some e), b)
  failed-Started before b e s = record {
    serving = IsIdle-IsServing b s;
    runs = λ done. absurd (ground (arith, done));
  }

  -- The configuration `cfg`, with the storage's users, is ready for sing-box.
  record Ready (before : Memory) (b : Backend X) (raw : String) (port : ℤ) (cfg : Config)
      : Type 0 where
    world : X.World
    loaded_raw : Fields
    read :
        load_config X world raw port
        ≡ loaded (record { raw = loaded_raw; inbounds = cfg.inbounds; by_tag = cfg.by_tag })
    indexed : cfg.by_tag ≡ map (λ (inb : Inbound). inb.tag) cfg.inbounds
    exact :
        (t ident : String)
        → (ident == "") ≡ false
        → holds ident (accounts t cfg.raw)
          ≡ (holds ident (accounts t loaded_raw) || wanted t ident b.store cfg.inbounds)
    gained :
        (tag : String) → registered b.store tag ≡ (contains tag cfg.by_tag || registered before tag)
    serving : IsIdle b

  -- The configuration is saved for sing-box in the world `written`.
  record Saved (cfg : Fields) (written : X.World) : Type 0 where
    json : String
    before : X.World
    marshalled : X.marshal (some cfg) ≡ inr json
    saved : save_config X before X.full_config_path json ≡ (none, written)

  proxy_started-Started :
      (before : Memory) (b : Backend X) (raw : String) (port : ℤ) (cfg : Config) (written : X.World)
      (err : Option Error)
      → Ready before b raw port cfg
      → Saved cfg.raw written
      → X.run_proxy written X.full_config_path ≡ (err, b.world)
      → Started before (proxy_started X b raw port cfg err)
  unfolding proxy_started contains_tag
  proxy_started-Started before b raw port cfg written (some e) r v done =
      failed-Started before b e r.serving
  proxy_started-Started before b raw port cfg written none r v done =
      let taken : IsLoaded X b.world cfg.raw = record {
        json = v.json;
        before = v.before;
        written = written;
        marshalled = v.marshalled;
        saved = v.saved;
        taken = inl done;
      } in
      record {
        serving = record {
          in_sync =
              λ c on clean. let same : cfg.raw ≡ c = cc in subst (IsLoaded X b.world) same taken;
          indexed = r.indexed;
          served = λ tag has. ground (arith, r.gained tag, has);
        };
        runs = λ done. record {
          world = r.world;
          port = port;
          cfg = r.loaded_raw;
          raw = cfg.raw;
          read = r.read;
          counted = refl;
          current = refl;
          serves = taken;
          exact = r.exact;
          gained = r.gained;
        };
      }

  saved-Started :
      (before : Memory) (b : Backend X) (raw : String) (port : ℤ) (cfg : Config) (json : String)
      (written : Option Error × X.World)
      → Ready before b raw port cfg
      → X.marshal (some cfg.raw) ≡ inr json
      → save_config X b.world X.full_config_path json ≡ written
      → Started before (saved X b raw port cfg written)
  unfolding saved contains_tag
  saved-Started before b raw port cfg json (some e, w) r made done =
      let s = r.serving in
      failed-Started before (record b { world = w }) e
        (record { off = s.off; indexed = s.indexed; served = s.served })
  saved-Started before b raw port cfg json (none, w) r made done =
      let s = r.serving in
      let (err, w') = X.run_proxy w X.full_config_path in
      proxy_started-Started before (record b { world = w' }) raw port cfg w err
        (record {
          world = r.world;
          loaded_raw = r.loaded_raw;
          read = r.read;
          indexed = r.indexed;
          exact = r.exact;
          gained = r.gained;
          serving = record { off = s.off; indexed = s.indexed; served = s.served };
        })
        (record { json = json; before = b.world; marshalled = made; saved = done }) refl

  marshalled-Started :
      (before : Memory) (b : Backend X) (raw : String) (port : ℤ) (cfg : Config)
      (json : Error ⊎ String)
      → Ready before b raw port cfg
      → X.marshal (some cfg.raw) ≡ json
      → Started before (marshalled X b raw port cfg json)
  unfolding marshalled
  marshalled-Started before b raw port cfg (inl e) r made = failed-Started before b e r.serving
  marshalled-Started before b raw port cfg (inr json) r made =
      saved-Started before b raw port cfg json (save_config X b.world X.full_config_path json) r
        made refl

module _ (X : Outside) (P : Packages Error) (algo : AuthAlgorithm) where
  filled-Started :
      (before : Memory) (b : Backend X) (w : X.World) (raw : String) (port : ℤ) (cfg : Config)
      (added : Option Error × Fields)
      → load_config X w raw port ≡ loaded cfg
      → AllIn cfg.inbounds cfg.raw
      → cfg.by_tag ≡ map (λ (inb : Inbound). inb.tag) cfg.inbounds
      → add_storage_users P algo b.store cfg.inbounds cfg.raw ≡ added
      → ((tag : String)
          → registered b.store tag ≡ (contains tag cfg.by_tag || registered before tag))
      → IsIdle X b
      → Started X before (filled X b raw port cfg added)
  unfolding filled
  filled-Started before b w raw port cfg (some e, filled_raw) read all indexed added gained s =
      failed-Started X before b e s
  filled-Started before b w raw port cfg (none, filled_raw) read all indexed added gained s =
      marshalled-Started X before b raw port (record cfg { raw = filled_raw })
        (X.marshal (some filled_raw))
        (record {
          world = w;
          loaded_raw = cfg.raw;
          read = read;
          indexed = indexed;
          exact = λ t ident some_text.
              ap (λ (r : Option Error × Fields). holds ident (accounts t r.1)) (sym added)
              ∙ holds-add_storage_users P algo t ident some_text b.store cfg.inbounds cfg.raw all
                  (ap (λ (r : Option Error × Fields). r.0) added);
          gained = gained;
          serving = s;
        })
        refl

  run_loaded-Started :
      (b : Backend X) (w : X.World) (raw : String) (port : ℤ) (l : Loaded)
      → load_config X w raw port ≡ l
      → IsSound l
      → IsIdle X b
      → Started X b.store (run_loaded X P algo b raw port l)
  unfolding run_loaded contains_tag
  run_loaded-Started b w raw port panicked read sound s = record {
    serving = IsIdle-IsServing X b s;
    runs = λ done. absurd (ground (arith, done));
  }
  run_loaded-Started b w raw port (rejected e) read sound s = failed-Started X b.store b e s
  run_loaded-Started b w raw port (loaded cfg) read sound s =
      let store = register_all cfg.inbounds b.store in
      let gained = λ (tag : String).
        registered-register_all tag cfg.inbounds b.store
        ∙ ap (λ h. h || registered b.store tag)
            (sym (contains-map tag cfg.inbounds) ∙ ap (contains tag) (sym sound.1)) in
      filled-Started b.store (record b { store = store }) w raw port cfg
        (add_storage_users P algo store cfg.inbounds cfg.raw) read sound.0 sound.1 refl gained
        (record {
          off = s.off;
          indexed = s.indexed;
          served = λ tag has. ground (arith, gained tag, s.served tag has);
        })

  run_on_port-Started :
      (b : Backend X) (raw : String) (port : Error ⊎ ℤ)
      → IsIdle X b
      → Started X b.store (run_on_port X P algo b raw port)
  unfolding run_on_port
  run_on_port-Started b raw (inl e) s = failed-Started X b.store b e s
  run_on_port-Started b raw (inr port) s =
      run_loaded-Started b b.world raw port (load_config X b.world raw port) refl
        (load_config-IsSound X b.world raw port) s

  run_chosen-Started :
      (b : Backend X) (chosen : Error ⊎ String)
      → IsIdle X b
      → Started X b.store (run_chosen X P algo b chosen)
  unfolding run_chosen contains_tag
  run_chosen-Started b (inl e) s = failed-Started X b.store b e s
  run_chosen-Started b (inr raw) s =
      run_on_port-Started (record b { world = (X.find_free_port b.world).1 }) raw
        (X.find_free_port b.world).0
        (record { off = s.off; indexed = s.indexed; served = s.served })

  pub start-Started :
      (b : Backend X) (backend_config : String)
      → IsIdle X b
      → Started X b.store (start X P algo b backend_config)
  unfolding start contains_tag
  start-Started b raw s =
      let (chosen, w) = chosen_config X b.world raw in
      run_chosen-Started (record b { world = w }) chosen
        (record { off = s.off; indexed = s.indexed; served = s.served })
