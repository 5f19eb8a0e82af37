-- ===== src/Service/Stream/Cleanup.antt =====
-- internal/service/service.go, cleanupRepopulateUsers and the same loop of RepopulateUsers.
use nde.Prelude.{
  ℕ, false, none, List, [], ◌∷◌, ◌≡◌, refl, ap, arith, ◌⊎◌, inl, inr, number_key, text_key,
  contains,
}
use nde.Models.{User, Inbound}
use nde.Backend.{Backends}
use nde.Storage.{Memory, get_user, list_users}
use nde.Storage
use nde.Storage.Listing.{get_user-remove_user}
use nde.Service.{Service, Settings, UserData, remove_user}
use nde.Service.Stream.{cleanup_user, cleanup_each, cleanup_repopulate_users}

module _ (B : Backends) (schedule : List UserData → List UserData) (c : Settings) where
  abbrev cleaned : List ℕ → Service B → User → Service B
  cleaned = cleanup_user B schedule c

  store-remove_user :
      (s : Service B) (u : User) (inbs : List Inbound) → (remove_user B u inbs s).1.store ≡ s.store
  unfolding remove_user
  store-remove_user s u inbs = refl

  -- The storage after one step of the cleanup: as before, or without the user.
  store-cleanup_user :
      (keep : List ℕ) (s : Service B) (user : User)
      → ((cleaned keep s user).store ≡ s.store)
        ⊎ ((contains user.id keep ≡ false)
            × ((cleaned keep s user).store ≡ Storage.remove_user s.store user.id))
  unfolding cleanup_user
  store-cleanup_user keep s user = ground (
    arith,
    store-remove_user (record s { world = B.with_timeout s.world c.repopulate_timeout }) user
        user.inbounds,
  )

  -- Carrying a dichotomy about one user over a step.
  gone_or_kept :
      (keep : List ℕ) (s : Service B) (user : User) (id : ℕ)
      → (get_user (cleaned keep s user).store id ≡ get_user s.store id)
        ⊎ ((contains id keep ≡ false) × (get_user (cleaned keep s user).store id ≡ none))
  gone_or_kept keep s user id = elim (store-cleanup_user keep s user) [
    | inl same ↦ inl (ap (λ m. get_user m id) same)
    | inr (out, gone) ↦
        ground (arith, ap (λ m. get_user m id) gone, get_user-remove_user s.store user.id id, out)
  ]

  cleanup_each_keeps :
      (keep : List ℕ) (s : Service B) (users : List User) (id : ℕ)
      → (get_user (cleanup_each B schedule c keep s users).store id ≡ get_user s.store id)
        ⊎ ((contains id keep ≡ false)
            × (get_user (cleanup_each B schedule c keep s users).store id ≡ none))
  unfolding cleanup_each
  cleanup_each_keeps keep s [] id = inl refl
  cleanup_each_keeps keep s (user ∷ users) id =
      ground
        (arith, gone_or_kept keep s user id, cleanup_each_keeps keep (cleaned keep s user) users id)

  -- The cleanup leaves each user as it is or removes it, whatever the backends answer, and never
  -- removes a user that is to be kept.
  pub cleanup_keeps :
      (s : Service B) (keep : List ℕ) (id : ℕ)
      → (get_user (cleanup_repopulate_users B schedule c s keep).store id ≡ get_user s.store id)
        ⊎ ((contains id keep ≡ false)
            × (get_user (cleanup_repopulate_users B schedule c s keep).store id ≡ none))
  unfolding cleanup_repopulate_users
  cleanup_keeps s keep id = cleanup_each_keeps keep s (list_users s.store) id
