-- ===== src/Singbox/Updates/Loaded.antt =====
-- internal/backend/singbox/backend.go: which configuration sing-box has loaded, while users are added and
-- removed and the worker applies them.
use nde.Prelude.{
  String, ◌⊎◌, inl, inr, Bool, true, false, Option, none, some, List, [], ◌∷◌, ◌≡◌, refl, arith,
  sym, ◌∙◌, subst, Option-cases,
}
use nde.Models.{Fields, User, Inbound}
use nde.Backend.{Error}
use nde.Auth.{Packages, AuthAlgorithm}
use nde.Singbox.Config.{append_user}
use nde.Singbox.Files.{Outside, save_config}
use nde.Singbox.Updates.{
  Updates, tick_reloaded, tick_saved, tick_marshalled, tick_with, update_tick, remove_user,
  appended, add_user, Event, adds, removes, ticks, happens, run,
}

module _ (X : Outside) where
  -- The last things that were done in this world: this configuration was saved at the path for sing-box,
  -- and sing-box was then started with that path, or told to reload, each without an error.
  pub record IsLoaded (w : X.World) (cfg : Fields) : Type 0 where
    pub json : String
    pub before : X.World
    pub written : X.World
    pub marshalled : X.marshal (some cfg) ≡ inr json
    pub saved : save_config X before X.full_config_path json ≡ (none, written)
    pub taken :
        (X.run_proxy written X.full_config_path ≡ (none, w)) ⊎ (X.reload written ≡ (none, w))

  -- Unless the configuration is marked as changed, it is the one that sing-box has loaded.
  abbrev pub InSync : X.World × Updates → Type 0
  InSync (w, u) =
      (cfg : Fields) → u.runtime_cfg ≡ some cfg → u.config_dirty ≡ false → IsLoaded w cfg

  tick_reloaded-InSync :
      (u : Updates) (cfg : Fields) (json : String) (before written : X.World)
      (r : Option Error × X.World)
      → u.runtime_cfg ≡ some cfg
      → u.config_dirty ≡ true
      → X.marshal (some cfg) ≡ inr json
      → save_config X before X.full_config_path json ≡ (none, written)
      → X.reload written ≡ r
      → InSync (tick_reloaded X u r)
  unfolding tick_reloaded
  tick_reloaded-InSync u cfg json before written (some e, w) on dirty made saved done =
      λ c is clean. absurd (ground (arith, dirty, clean))
  tick_reloaded-InSync u cfg json before written (none, w) on dirty made saved done = λ c is clean.
      let both : some cfg ≡ some c = sym on ∙ is in
      let same : cfg ≡ c = cc in
      subst (IsLoaded w) same (record {
        json = json;
        before = before;
        written = written;
        marshalled = made;
        saved = saved;
        taken = inr done;
      })

  tick_saved-InSync :
      (u : Updates) (cfg : Fields) (json : String) (before : X.World) (r : Option Error × X.World)
      → u.runtime_cfg ≡ some cfg
      → u.config_dirty ≡ true
      → X.marshal (some cfg) ≡ inr json
      → save_config X before X.full_config_path json ≡ r
      → InSync (tick_saved X u r)
  unfolding tick_saved
  tick_saved-InSync u cfg json before (some e, w) on dirty made saved =
      λ c is clean. absurd (ground (arith, dirty, clean))
  tick_saved-InSync u cfg json before (none, w) on dirty made saved =
      tick_reloaded-InSync u cfg json before w (X.reload w) on dirty made saved refl

  tick_marshalled-InSync :
      (w : X.World) (u : Updates) (cfg : Fields) (r : Error ⊎ String)
      → u.runtime_cfg ≡ some cfg
      → u.config_dirty ≡ true
      → X.marshal (some cfg) ≡ r
      → InSync (tick_marshalled X w u r)
  unfolding tick_marshalled
  tick_marshalled-InSync w u cfg (inl e) on dirty made =
      λ c is clean. absurd (ground (arith, dirty, clean))
  tick_marshalled-InSync w u cfg (inr json) on dirty made =
      tick_saved-InSync u cfg json w (save_config X w X.full_config_path json) on dirty made refl

  tick_with-InSync :
      (w : X.World) (u : Updates) (dirty : Bool) (cfg : Option Fields)
      → u.config_dirty ≡ dirty
      → u.runtime_cfg ≡ cfg
      → InSync (w, u)
      → InSync (tick_with X w u dirty cfg)
  unfolding tick_with
  tick_with-InSync w u false cfg marked on h = h
  tick_with-InSync w u true none marked on h = h
  tick_with-InSync w u true (some cfg) marked on h =
      tick_marshalled-InSync w u cfg (X.marshal (some cfg)) on marked refl

  update_tick-InSync : (w : X.World) (u : Updates) → InSync (w, u) → InSync (update_tick X w u)
  unfolding update_tick
  update_tick-InSync w u h = tick_with-InSync w u u.config_dirty u.runtime_cfg refl refl h

  -- A tick whose calls all succeed.
  tick_lem :
      (w w1 w2 : X.World) (u : Updates) (cfg : Fields) (json : String) (dirty : Bool)
      → u.config_dirty ≡ dirty
      → u.runtime_cfg ≡ some cfg
      → X.marshal (some cfg) ≡ inr json
      → save_config X w X.full_config_path json ≡ (none, w1)
      → X.reload w1 ≡ (none, w2)
      → ((tick_with X w u dirty (some cfg)).1.config_dirty ≡ false)
        × ((tick_with X w u dirty (some cfg)).1.runtime_cfg ≡ some cfg)
  unfolding tick_with tick_marshalled tick_saved tick_reloaded
  tick_lem w w1 w2 u cfg json true marked on made saved done =
      rw (made, tick_marshalled, saved, tick_saved, done) (refl, on)
  tick_lem w w1 w2 u cfg json false marked on made saved done = (marked, on)

  update_tick_lem :
      (w w1 w2 : X.World) (u : Updates) (cfg : Fields) (json : String)
      → u.runtime_cfg ≡ some cfg
      → X.marshal (some cfg) ≡ inr json
      → save_config X w X.full_config_path json ≡ (none, w1)
      → X.reload w1 ≡ (none, w2)
      → ((update_tick X w u).1.config_dirty ≡ false)
        × ((update_tick X w u).1.runtime_cfg ≡ some cfg)
  unfolding update_tick
  update_tick_lem w w1 w2 u cfg json on made saved done =
      subst
        (λ o.
          ((tick_with X w u u.config_dirty o).1.config_dirty ≡ false)
          × ((tick_with X w u u.config_dirty o).1.runtime_cfg ≡ some cfg))
        (sym on) (tick_lem w w1 w2 u cfg json u.config_dirty refl on made saved done)

  remove_user-InSync :
      (w : X.World) (u : Updates) (user : User) (inbound : Inbound)
      → InSync (w, u)
      → InSync (w, (remove_user u user inbound).1)
  unfolding remove_user
  remove_user-InSync w u user inbound h = elim (Option-cases u.runtime_cfg) [
    | inl off ↦ rw (off, remove_user) h
    | inr (cfg, on) ↦ rw (on, remove_user) (λ c is clean. absurd (ground (arith, clean)))
  ]

module _ (X : Outside) (P : Packages Error) (algo : AuthAlgorithm) where
  appended-InSync :
      (w : X.World) (u : Updates) (r : Option Error × Fields)
      → InSync X (w, u)
      → InSync X (w, (appended P algo u r).1)
  unfolding appended
  appended-InSync w u (some e, cfg) h = h
  appended-InSync w u (none, cfg) h = λ c is clean. absurd (ground (arith, clean))

  add_user-InSync :
      (w : X.World) (u : Updates) (user : User) (inbound : Inbound)
      → InSync X (w, u)
      → InSync X (w, (add_user P algo u user inbound).1)
  unfolding add_user
  add_user-InSync w u user inbound h = elim (Option-cases u.runtime_cfg) [
    | inl off ↦ rw (off, add_user) h
    | inr (cfg, on) ↦
        rw (on, add_user) (appended-InSync w u (append_user P algo cfg user inbound) h)
  ]

  happens-InSync :
      (e : Event X P algo) (s : X.World × Updates) → InSync X s → InSync X (happens X P algo e s)
  unfolding happens
  happens-InSync (adds user inbound) (w, u) h = add_user-InSync w u user inbound h
  happens-InSync (removes user inbound) (w, u) h = remove_user-InSync X w u user inbound h
  happens-InSync ticks (w, u) h = update_tick-InSync X w u h

  run-InSync :
      (es : List (Event X P algo)) (s : X.World × Updates)
      → InSync X s
      → InSync X (run X P algo es s)
  unfolding run
  run-InSync [] s h = h
  run-InSync (e ∷ rest) s h = run-InSync rest (happens X P algo e s) (happens-InSync e s h)

  -- From a state whose configuration is the one that sing-box has loaded or is marked as changed, as
  -- after a start, whatever users are added and removed and whichever ticks of the worker fail: the
  -- configuration, if there is one, is the last that was saved for sing-box and loaded by it, unless it
  -- is marked as changed; and a tick that can marshal it, save it and reload sing-box takes the mark
  -- away and has it loaded.
  pub run-loaded :
      (es : List (Event X P algo)) (s : X.World × Updates) (cfg : Fields) (json : String)
      (w1 w2 : X.World)
      → InSync X s
      → let (w, u) = run X P algo es s in
        u.runtime_cfg ≡ some cfg
        → X.marshal (some cfg) ≡ inr json
        → save_config X w X.full_config_path json ≡ (none, w1)
        → X.reload w1 ≡ (none, w2)
        → InSync X (w, u)
          × ((update_tick X w u).1.config_dirty ≡ false)
          × IsLoaded X (update_tick X w u).0 cfg
  run-loaded es s cfg json w1 w2 h on made saved done =
      let (w, u) = run X P algo es s in
      let sync = run-InSync es s h in
      let ok = update_tick_lem X w w1 w2 u cfg json on made saved done in
      (sync, ok.0, update_tick-InSync X w u sync cfg ok.1 ok.0)
