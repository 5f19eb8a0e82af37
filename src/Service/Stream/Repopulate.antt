-- ===== src/Service/Stream/Repopulate.antt =====
-- internal/service/service.go: a whole repopulation over backends whose calls report no error.
use nde.Prelude.{
  ℕ, none, List, [], ◌∷◌, ◌≡◌, ap, arith, number_key, text_key, contains, if◌then◌else◌, is_some,
  ==_iff,
}
use nde.Models.{User}
use nde.Backend.{Backends}
use nde.Storage.{Memory, get_user, list_users, has_tag}
use nde.Storage
use nde.Storage.IsWell.{IsWell}
use nde.Storage.Lookups.{find_id, find_id-list_users}
use nde.Storage.Listing.{get_user-remove_user}
use nde.Service.{Service, Settings, UserData, remove_user}
use nde.Service.Reliable.{Reliable, remove_user-eq-none}
use nde.Service.Stream.{cleanup_user, cleanup_each, cleanup_repopulate_users}

module _ (B : Backends) (R : Reliable B) (schedule : List UserData → List UserData)
    (c : Settings) where
  store-cleanup_user_reliable :
      (keep : List ℕ) (s : Service B) (user : User)
      → (cleanup_user B schedule c keep s user).store
        ≡ (if contains user.id keep then s.store else Storage.remove_user s.store user.id)
  unfolding cleanup_user remove_user
  store-cleanup_user_reliable keep s user = ground (
    arith,
    remove_user-eq-none B R (record s { world = B.with_timeout s.world c.repopulate_timeout }) user
        user.inbounds,
  )

  get_user-cleanup_each :
      (keep : List ℕ) (s : Service B) (users : List User) (id : ℕ)
      → get_user (cleanup_each B schedule c keep s users).store id ≡ (
          if contains id keep
          then get_user s.store id
          else if is_some (find_id id users)
          then none
          else get_user s.store id)
  unfolding cleanup_each find_id
  get_user-cleanup_each keep s [] id = ground arith
  get_user-cleanup_each keep s (user ∷ users) id = ground (
    arith,
    get_user-cleanup_each keep (cleanup_user B schedule c keep s user) users id,
    ap (λ m. get_user m id) (store-cleanup_user_reliable keep s user),
    get_user-remove_user s.store user.id id,
    ==_iff user.id id,
  )

  -- With reliable backends the cleanup leaves exactly the users that are to be kept, each as it was.
  pub cleanup_exact :
      (s : Service B) (keep : List ℕ) (id : ℕ)
      → IsWell s.store
      → get_user (cleanup_repopulate_users B schedule c s keep).store id
        ≡ (if contains id keep then get_user s.store id else none)
  unfolding cleanup_repopulate_users
  cleanup_exact s keep id w =
      ground (
        arith,
        get_user-cleanup_each keep s (list_users s.store) id,
        find_id-list_users s.store id w,
      )
