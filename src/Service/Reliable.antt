-- ===== src/Service/Reliable.antt =====
-- internal/service/service.go over backends whose calls report no error.
use nde.Prelude.{
  ℕ, zero, suc, String, Bool, true, Option, none, some, List, [], ◌∷◌, ◌≡◌, refl, arith, ◌∙◌, sym,
  Option-cases, ap, inl, inr, subst,
}
use nde.Models.{User, Inbound}
use nde.Backend.{Backends, Error, join_errors}
use nde.Storage.{get_user}
use nde.Storage.IsWell.{IsWell}
use nde.Service.{
  Service, Settings, UserData, add_errors, remove_errors, add_user, remove_user, backend_by_tag,
  apply_known, apply_user_data, save_user, forget_user, pb_user_to_model, inbound_tags,
  resolve_inbounds, removed_tags, additions,
}
use nde.Service.Ledger.{Ledger, covered, is_listed}
use nde.Service.Sync.{Agrees, forced-Agrees, user_of}
use nde.Service.Retry.{apply_user_data_with_timeout, apply_user_data_with_retry}
use nde.Service.Retry.Outcome.{retry-first}

-- No call to add a user or to remove one fails.
pub record Reliable (B : Backends) : Type 0 where
  pub add_user-none :
      (w : B.World) (name : String) (u : User) (i : Inbound) → (B.add_user w name u i).0 ≡ none
  pub remove_user-none :
      (w : B.World) (name : String) (u : User) (i : Inbound) → (B.remove_user w name u i).0 ≡ none

module _ (B : Backends) (R : Reliable B) where
  add_errors-nil : (w : B.World) (u : User) (inbs : List Inbound) → (add_errors B w u inbs).0 ≡ []
  unfolding add_errors
  add_errors-nil w u [] = refl
  add_errors-nil w u (i ∷ inbs) = elim (Option-cases (backend_by_tag B w i.tag)) [
    | inl missing ↦ rw (missing, add_errors) (add_errors-nil w u inbs)
    | inr (name, found) ↦
        rw (found, add_errors)
          (ground
            (arith, R.add_user-none w name u i, add_errors-nil (B.add_user w name u i).1 u inbs))
  ]

  remove_errors-nil :
      (w : B.World) (u : User) (inbs : List Inbound) → (remove_errors B w u inbs).0 ≡ []
  unfolding remove_errors
  remove_errors-nil w u [] = refl
  remove_errors-nil w u (i ∷ inbs) = elim (Option-cases (backend_by_tag B w i.tag)) [
    | inl missing ↦ rw (missing, remove_errors) (remove_errors-nil w u inbs)
    | inr (name, found) ↦
        rw (found, remove_errors)
          (ground (
            arith,
            R.remove_user-none w name u i,
            remove_errors-nil (B.remove_user w name u i).1 u inbs,
          ))
  ]

  pub add_user-eq-none :
      (s : Service B) (u : User) (inbs : List Inbound) → (add_user B u inbs s).0 ≡ none
  unfolding add_user join_errors
  add_user-eq-none s u inbs = rw (add_errors-nil s.world u inbs)

  pub remove_user-eq-none :
      (s : Service B) (u : User) (inbs : List Inbound) → (remove_user B u inbs s).0 ≡ none
  unfolding remove_user join_errors
  remove_user-eq-none s u inbs = rw (remove_errors-nil s.world u inbs)

  apply_known-eq-none :
      (s : Service B) (user : User) (o : Option User) (tags : List String) (force : Bool)
      → (apply_known B s user o tags force).0 ≡ none
  unfolding apply_known save_user forget_user
  apply_known-eq-none s user none [] force = refl
  apply_known-eq-none s user none (tag ∷ tags) force =
      ground (arith, add_user-eq-none s user (resolve_inbounds s.store (tag ∷ tags)))
  apply_known-eq-none s user (some u) [] force = ground (arith, remove_user-eq-none s u u.inbounds)
  apply_known-eq-none s user (some u) (tag ∷ tags) force =
      let removed = resolve_inbounds s.store (removed_tags u (tag ∷ tags)) in
      ground (
        arith,
        remove_user-eq-none s u removed,
        add_user-eq-none (remove_user B u removed s).1 u (additions s.store u (tag ∷ tags) force),
      )

  apply_user_data-eq-none :
      (s : Service B) (msg : UserData) (force : Bool) → (apply_user_data B s msg force).0 ≡ none
  unfolding apply_user_data
  apply_user_data-eq-none s msg force = ground (
    arith,
    apply_known-eq-none s (pb_user_to_model msg.user)
        (get_user s.store (pb_user_to_model msg.user).id) (inbound_tags msg.inbounds) force,
  )

  with_timeout-eq-none :
      (s : Service B) (msg : UserData) (timeout : ℕ) (force : Bool)
      → (apply_user_data_with_timeout B s msg timeout force).0 ≡ none
  unfolding apply_user_data_with_timeout
  with_timeout-eq-none s msg zero force = apply_user_data-eq-none s msg force
  with_timeout-eq-none s msg (suc n) force =
      apply_user_data-eq-none (record s { world = B.with_timeout s.world (suc n) }) msg force

  pub with_retry-eq-none :
      (c : Settings) (s : Service B) (msg : UserData) (timeout : ℕ) (force : Bool)
      → (apply_user_data_with_retry B c s msg timeout force).0 ≡ none
  with_retry-eq-none c s msg timeout force =
      ap (λ (r : Option Error × Service B). r.0)
        (retry-first B c s msg timeout force (with_timeout-eq-none s msg timeout force))

module _ (B : Backends) (L : Ledger B) where
  -- A change of the context alone.
  pub Agrees-world :
      (s : Service B) (w : B.World)
      → ((uid : ℕ) (t : String) → L.has w uid t ≡ L.has s.world uid t)
      → ((t : String) → covered B w t ≡ covered B s.world t)
      → Agrees B L s
      → Agrees B L (record s { world = w })
  Agrees-world s w same route a = record {
    listed = a.listed;
    at = λ uid t tr.
        same uid t
        ∙ a.at uid t
            (record { named = tr.named; known = tr.known; routed = sym (route t) ∙ tr.routed });
  }

module _ (B : Backends) (L : Ledger B) (R : Reliable B) where
  with_timeout-Agrees :
      (s : Service B) (msg : UserData) (timeout : ℕ)
      → IsWell s.store
      → Agrees B L s
      → is_listed B L (some (user_of msg)) ≡ true
      → Agrees B L (apply_user_data_with_timeout B s msg timeout true).1
  unfolding apply_user_data_with_timeout
  with_timeout-Agrees s msg zero w a listed =
      forced-Agrees B L s msg w a listed (apply_user_data-eq-none B R s msg true)
  with_timeout-Agrees s msg (suc n) w a listed =
      let s' : Service B = record s { world = B.with_timeout s.world (suc n) } in
      let done = (apply_user_data B s' msg true).1 in
      Agrees-world B L done (B.end_timeout done.world) (λ uid t. L.has-end_timeout done.world uid t)
        (λ t. L.covered-end_timeout done.world t)
        (forced-Agrees B L s' msg w
          (Agrees-world B L s (B.with_timeout s.world (suc n))
            (λ uid t. L.has-with_timeout s.world (suc n) uid t)
            (λ t. L.covered-with_timeout s.world (suc n) t) a)
          listed (apply_user_data-eq-none B R s' msg true))

  pub with_retry-Agrees :
      (c : Settings) (s : Service B) (msg : UserData) (timeout : ℕ)
      → IsWell s.store
      → Agrees B L s
      → is_listed B L (some (user_of msg)) ≡ true
      → Agrees B L (apply_user_data_with_retry B c s msg timeout true).1
  with_retry-Agrees c s msg timeout w a listed =
      subst (λ (r : Option Error × Service B). Agrees B L r.1)
        (sym (retry-first B c s msg timeout true (with_timeout-eq-none B R s msg timeout true)))
        (with_timeout-Agrees s msg timeout w a listed)
