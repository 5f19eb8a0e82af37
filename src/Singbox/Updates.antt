-- ===== src/Singbox/Updates.antt =====
-- internal/backend/singbox/backend.go: AddUser and RemoveUser change the configuration of the running
-- sing-box, and userUpdateWorker writes it out and makes sing-box load it. The mutex `configMu` makes
-- each of them one step.
pub mod Loaded
mod Tests
use nde.Prelude.{
  String, ◌⊎◌, inl, inr, Bool, true, false, Option, none, some, List, [], ◌∷◌, ◌≡◌, ◌≢◌, refl,
  arith, if◌then◌else◌,
}
use nde.Models.{Fields, User, Inbound}
use nde.Backend.{Error, failed}
use nde.Auth.{Packages, AuthAlgorithm}
use nde.Singbox.Config.{append_user}
use nde.Singbox.Files.{Outside, save_config}
use nde.Singbox.Config

pub record Updates : Type 0 where
  pub runtime_cfg : Option Fields
  pub config_dirty : Bool

module _ (X : Outside) where
  -- The end of a tick, with the result of Reload.
  tick_reloaded : Updates → Option Error × X.World → X.World × Updates
  tick_reloaded u (some e, w) = (w, u)
  tick_reloaded u (none, w) = (w, record u { config_dirty = false })

  -- A tick from where the configuration is saved or not.
  tick_saved : Updates → Option Error × X.World → X.World × Updates
  unfolding tick_reloaded
  tick_saved u (some e, w) = (w, u)
  tick_saved u (none, w) = tick_reloaded u (X.reload w)

  -- A tick from where the configuration is marshalled or not.
  tick_marshalled : X.World → Updates → Error ⊎ String → X.World × Updates
  unfolding save_config tick_saved
  tick_marshalled w u (inl e) = (w, u)
  tick_marshalled w u (inr raw) = tick_saved u (save_config X w X.full_config_path raw)

  -- A tick, with the mark and the configuration.
  tick_with : X.World → Updates → Bool → Option Fields → X.World × Updates
  unfolding tick_marshalled
  tick_with w u false cfg = (w, u)
  tick_with w u true none = (w, u)
  tick_with w u true (some cfg) = tick_marshalled w u (X.marshal (some cfg))

  -- One tick of userUpdateWorker.
  unfoldable pub update_tick : X.World → Updates → X.World × Updates
  unfolding tick_with
  update_tick w u = tick_with w u u.config_dirty u.runtime_cfg

-- `RemoveUser`
unfoldable pub remove_user : Updates → User → Inbound → Option Error × Updates
unfolding Config.remove_user
remove_user u user inbound = elim u.runtime_cfg [
  | none ↦ (some (failed "sing-box config unavailable"), u)
  | some cfg ↦ (
    none,
    record u { runtime_cfg = some (Config.remove_user cfg user inbound); config_dirty = true },
  )
]

module _ (P : Packages Error) (algo : AuthAlgorithm) where
  appended : Updates → Option Error × Fields → Option Error × Updates
  appended u (some e, cfg) = (some e, u)
  appended u (none, cfg) = (none, record u { runtime_cfg = some cfg; config_dirty = true })

  -- `AddUser`
  unfoldable pub add_user : Updates → User → Inbound → Option Error × Updates
  unfolding append_user appended
  add_user u user inbound = elim u.runtime_cfg [
    | none ↦ (some (failed "sing-box config unavailable"), u)
    | some cfg ↦ appended u (append_user P algo cfg user inbound)
  ]

module _ (X : Outside) (P : Packages Error) (algo : AuthAlgorithm) where
  pub data Event : Type 0 where
    adds : User → Inbound → Event
    removes : User → Inbound → Event
    ticks : Event

  unfoldable pub happens : Event → X.World × Updates → X.World × Updates
  unfolding add_user remove_user update_tick
  happens (adds user inbound) (w, u) = (w, (add_user P algo u user inbound).1)
  happens (removes user inbound) (w, u) = (w, (remove_user u user inbound).1)
  happens ticks (w, u) = update_tick X w u

  unfoldable pub run : List Event → X.World × Updates → X.World × Updates
  unfolding happens
  run [] s = s
  run (e ∷ rest) s = run rest (happens e s)
