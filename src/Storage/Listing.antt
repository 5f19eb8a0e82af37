-- ===== src/Storage/Listing.antt =====
-- internal/storage/memory.go, ListUsers: a list of users that is still true of the storage while a
-- caller goes through it and removes users.
use nde.Prelude.{
  ℕ, none, some, List, [], ◌∷◌, ◌==◌, ◌≡◌, ◌∙◌, arith, number_key, if◌then◌else◌, ==_iff,
}
use nde.Prelude.Dict.{Dict, get, IsMap, Each, get-delete}
use nde.Models.{User}
use nde.Storage.{Memory, get_user, list_users, remove_user, list_values}
use nde.Storage.IsWell.{IsWell}
use nde.Storage.Lookups.{get_user_lem, clone_user_lem, find_id, find_id-list_values}

-- Each user of the list is stored, and no two have one id.
abbrev pub Listed : Memory → List User → Type 0
Listed m [] = Unit
Listed m (u ∷ rest) = (get_user m u.id ≡ some u) × (find_id u.id rest ≡ none) × Listed m rest

Listed-list_values :
    (m : Memory) (d : Dict ℕ User)
    → Each (λ id u. u.id ≡ id) d
    → IsMap d
    → ((id : ℕ) (u : User) → get id d ≡ some u → get_user m id ≡ some u)
    → Listed m (list_values d)
unfolding list_values get
Listed-list_values m [] keyed map h = tt
Listed-list_values m ((k, u) ∷ rest) keyed map h = rw clone_user_lem (
  h u.id u (ground (arith, keyed.0, ==_iff k u.id)),
  find_id-list_values u.id rest keyed.1 ∙ ground (arith, keyed.0, map.0),
  Listed-list_values m rest keyed.1 map.1
      (λ id v found. h id v (ground (arith, map.0, ==_iff k id))),
)

pub Listed-list_users : (m : Memory) → IsWell m → Listed m (list_users m)
unfolding list_users
Listed-list_users m w =
    Listed-list_values m m.users w.users_keyed w.users_map (λ id u found. get_user_lem m id ∙ found)

pub get_user-remove_user :
    (m : Memory) (id uid : ℕ)
    → get_user (remove_user m id) uid ≡ (if id == uid then none else get_user m uid)
unfolding remove_user
get_user-remove_user m id uid = simp (get_user_lem, get-delete)

pub Listed-remove_user :
    (m : Memory) (id : ℕ) (users : List User)
    → find_id id users ≡ none
    → Listed m users
    → Listed (remove_user m id) users
unfolding find_id
Listed-remove_user m id [] other l = tt
Listed-remove_user m id (u ∷ users) other l = (
  ground (arith, get_user-remove_user m id u.id, l.0, ==_iff u.id id),
  l.1,
  Listed-remove_user m id users (ground arith) l.2,
)
