-- ===== src/Xray/Lifecycle/Registered.antt =====
-- internal/backend/xray/backend.go: the inbounds that the storage has while xray is started, stopped
-- and restarted.
use nde.Prelude.{
  String, false, not, ◌&&◌, Option, none, some, List, [], ◌∷◌, map, ◌≡◌, refl, arith, text_key,
  if◌then◌else◌, ap, ◌∙◌, sym,
}
use nde.Models.{Inbound}
use nde.Storage.{has_tag}
use nde.Storage.Inbounds.{registered-unregister_all}
use nde.Storage.Lookups.{registered}
use nde.Xray.Config.Load.{
  Config, Loaded, panicked, rejected, loaded, load_config, register_inbounds, listed,
}
use nde.Xray.Config.Load
use nde.Xray.Lifecycle.{
  Outside, idle, working, cancelled, Backend, inbounds_of, contains_tag, stop, stop_repopulate,
}

-- The set of tags is the set of the inbounds' tags.
abbrev pub IsIndexed : Option Config → Type 0
IsIndexed none = Unit
IsIndexed (some c) = c.inbound_tags ≡ map (λ inb. inb.tag) c.inbounds

pub listed-map :
    (tag : String) (inbs : List Inbound) → listed tag (map (λ inb. inb.tag) inbs) ≡ has_tag tag inbs
unfolding listed has_tag
listed-map tag [] = refl
listed-map tag (inb ∷ rest) = ground (arith, listed-map tag rest)

module _ (X : Outside) where
  pub tagged :
      (c : Config) (tag : String)
      → IsIndexed (some c)
      → has_tag tag c.inbounds ≡ Load.contains_tag c tag
  unfolding Load.contains_tag
  tagged c tag indexed =
      sym (listed-map tag c.inbounds) ∙ ap (λ tags. listed tag tags) (sym indexed)

  contained :
      (cfg : Option Config) (tag : String)
      → IsIndexed cfg
      → has_tag tag (inbounds_of cfg) ≡ elim cfg [ none ↦ false | some c ↦ Load.contains_tag c tag ]
  unfolding inbounds_of has_tag
  contained none tag indexed = refl
  contained (some c) tag indexed = tagged c tag indexed

  stop_repopulate_kept :
      (b : Backend X)
      → ((stop_repopulate X b).store ≡ b.store)
        × ((stop_repopulate X b).runtime_cfg ≡ b.runtime_cfg)
  unfolding stop_repopulate
  stop_repopulate_kept b =
      elim b.worker
        as (λ k.
          let (ended, w) = X.await_worker b.world in
          let b' : Backend X = record b {
            worker = (if ended then idle else cancelled);
            world = w;
          } in
          let r : Backend X = elim k [ idle ↦ b | working ↦ b' | cancelled ↦ b' ] in
          (r.store ≡ b.store) × (r.runtime_cfg ≡ b.runtime_cfg)) [
            | idle ↦ (refl, refl)
            | working ↦ (refl, refl)
            | cancelled ↦ (refl, refl)
          ]

  -- Whatever the runner's Stop gives, the backend has no inbound then, and the storage has those
  -- that it had, less the backend's.
  pub stop-registered :
      (b : Backend X) (tag : String)
      → IsIndexed b.runtime_cfg
      → let b' = (stop X b).1 in
        (contains_tag X b' tag ≡ false)
        × (registered b'.store tag ≡ (not (contains_tag X b tag) && registered b.store tag))
  unfolding stop contains_tag
  stop-registered b tag indexed =
      let kept = stop_repopulate_kept b in
      let b1 = stop_repopulate X b in
      (
        refl,
        registered-unregister_all tag (inbounds_of b1.runtime_cfg) b1.store
            ∙ ap (λ c. not (has_tag tag (inbounds_of c)) && registered b1.store tag) kept.1
            ∙ ap (λ m. not (has_tag tag (inbounds_of b.runtime_cfg)) && registered m tag) kept.0
            ∙ ap (λ h. not h && registered b.store tag) (contained b.runtime_cfg tag indexed),
      )
