-- ===== src/Service/Serving.antt =====
-- internal/service/service.go, applyUserData: the users that the backends serve after an update.
use nde.Prelude.{
  ℕ, String, Bool, true, false, not, ◌||◌, ◌&&◌, Option, none, some, List, [], ◌∷◌, ◌==◌, ◌≡◌, refl,
  arith, number_key, text_key,
}
use nde.Models.{User, Inbound}
use nde.Backend.{Backends, Error, join_errors}
use nde.Storage.{Memory, get_user, has_tag}
use nde.Service.{
  Service, resolve_inbounds, removed_tags, additions, add_user, remove_user, save_user, forget_user,
  apply_known,
}
use nde.Service.Ledger.{
  Ledger, covered, is_listed, has-add_errors, has-remove_errors, covered-add_errors,
  covered-remove_errors,
}

-- The user has the tag in the storage.
unfoldable pub serves : Memory → ℕ → String → Bool
serves store uid t = elim (get_user store uid) [ none ↦ false | some u ↦ has_tag t u.inbounds ]

join_errors-eq-none : (errs : List Error) → join_errors errs ≡ none → errs ≡ []
unfolding join_errors
join_errors-eq-none [] h = refl
join_errors-eq-none (e ∷ errs) h = cc

module _ (B : Backends) (L : Ledger B) where
  open L use {has}

  has-add_user :
      (s : Service B) (u : User) (inbs : List Inbound) (uid : ℕ) (t : String)
      → L.lists u.id u.username u.key ≡ true
      → (add_user B u inbs s).0 ≡ none
      → has (add_user B u inbs s).1.world uid t
        ≡ (has s.world uid t || (u.id == uid && (covered B s.world t && has_tag t inbs)))
  unfolding add_user
  has-add_user s u inbs uid t listed h =
      has-add_errors B L s.world u inbs uid t listed (join_errors-eq-none _ h)

  pub has-remove_user :
      (s : Service B) (u : User) (inbs : List Inbound) (uid : ℕ) (t : String)
      → L.lists u.id u.username u.key ≡ true
      → (remove_user B u inbs s).0 ≡ none
      → has (remove_user B u inbs s).1.world uid t
        ≡ (has s.world uid t && not (u.id == uid && (covered B s.world t && has_tag t inbs)))
  unfolding remove_user
  has-remove_user s u inbs uid t listed h =
      has-remove_errors B L s.world u inbs uid t listed (join_errors-eq-none _ h)

  covered-add_user :
      (s : Service B) (u : User) (inbs : List Inbound) (t : String)
      → covered B (add_user B u inbs s).1.world t ≡ covered B s.world t
  unfolding add_user
  covered-add_user s u inbs t = covered-add_errors B L s.world u inbs t

  pub covered-remove_user :
      (s : Service B) (u : User) (inbs : List Inbound) (t : String)
      → covered B (remove_user B u inbs s).1.world t ≡ covered B s.world t
  unfolding remove_user
  covered-remove_user s u inbs t = covered-remove_errors B L s.world u inbs t

  pub covered-apply_known :
      (s : Service B) (user : User) (o : Option User) (tags : List String) (force : Bool)
      (t : String)
      → covered B (apply_known B s user o tags force).1.world t ≡ covered B s.world t
  unfolding apply_known save_user forget_user
  covered-apply_known s user none [] force t = refl
  covered-apply_known s user none (tag ∷ tags) force t =
      ground (arith, covered-add_user s user (resolve_inbounds s.store (tag ∷ tags)) t)
  covered-apply_known s user (some stored) [] force t =
      ground (arith, covered-remove_user s stored stored.inbounds t)
  covered-apply_known s user (some stored) (tag ∷ tags) force t = ground (
    arith,
    covered-remove_user s stored (resolve_inbounds s.store (removed_tags stored (tag ∷ tags))) t,
    covered-add_user
        (remove_user B stored (resolve_inbounds s.store (removed_tags stored (tag ∷ tags))) s).1
        stored (additions s.store stored (tag ∷ tags) force) t,
  )

  -- The user and tag pairs that the backends serve after a successful update.
  abbrev pub served : Service B → User → Option User → List String → Bool → ℕ → String → Bool
  served s user none [] force uid t = has s.world uid t
  served s user none (tag ∷ tags) force uid t =
      has s.world uid t
      || (user.id == uid
          && (covered B s.world t && has_tag t (resolve_inbounds s.store (tag ∷ tags))))
  served s user (some stored) [] force uid t =
      has s.world uid t
      && not (stored.id == uid && (covered B s.world t && has_tag t stored.inbounds))
  served s user (some stored) (tag ∷ tags) force uid t =
      (has s.world uid t
        && not (
            stored.id == uid
            && (covered B s.world t
                && has_tag t (resolve_inbounds s.store (removed_tags stored (tag ∷ tags))))))
      || (stored.id == uid
          && (covered B s.world t && has_tag t (additions s.store stored (tag ∷ tags) force)))

  pub has-apply_known :
      (s : Service B) (user : User) (o : Option User) (tags : List String) (force : Bool) (uid : ℕ)
      (t : String)
      → L.lists user.id user.username user.key ≡ true
      → is_listed B L o ≡ true
      → (apply_known B s user o tags force).0 ≡ none
      → has (apply_known B s user o tags force).1.world uid t ≡ served s user o tags force uid t
  unfolding apply_known save_user forget_user
  has-apply_known s user none [] force uid t listed old h = refl
  has-apply_known s user none (tag ∷ tags) force uid t listed old h =
      ground (arith, has-add_user s user (resolve_inbounds s.store (tag ∷ tags)) uid t listed)
  has-apply_known s user (some stored) [] force uid t listed old h =
      ground (arith, has-remove_user s stored stored.inbounds uid t old)
  has-apply_known s user (some stored) (tag ∷ tags) force uid t listed old h = ground (
    arith,
    has-remove_user s stored (resolve_inbounds s.store (removed_tags stored (tag ∷ tags))) uid t
        old,
    covered-remove_user s stored (resolve_inbounds s.store (removed_tags stored (tag ∷ tags))) t,
    has-add_user
        (remove_user B stored (resolve_inbounds s.store (removed_tags stored (tag ∷ tags))) s).1
        stored (additions s.store stored (tag ∷ tags) force) uid t old,
  )
