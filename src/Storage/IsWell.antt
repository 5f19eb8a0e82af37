-- ===== src/Storage/IsWell.antt =====
-- internal/storage/memory.go: the invariant of the two maps, and that every method keeps it.
use nde.Prelude.{String, ℕ, ◌≡◌, refl, List, [], ◌∷◌, arith, number_key, text_key, none}
use nde.Prelude.Dict.{Dict, get, IsMap, Each, put-IsMap, delete-IsMap, put-Each, delete-Each}
use nde.Models.{User, Inbound}
use nde.Storage.{
  Memory, new_memory, update_user_inbounds, remove_user, flush_users, register_inbound,
  unregister_inbound, remove_inbound, strip_users,
}

-- Each key has one entry, and stands in it: a user's id, an inbound's tag.
pub record IsWell (m : Memory) : Type 0 where
  pub users_map : IsMap m.users
  pub users_keyed : Each (λ id u. u.id ≡ id) m.users
  pub inbounds_map : IsMap m.inbounds
  pub inbounds_keyed : Each (λ tag inb. inb.tag ≡ tag) m.inbounds

pub new_memory-IsWell : IsWell new_memory
unfolding new_memory
new_memory-IsWell = record {
  users_map = tt;
  users_keyed = tt;
  inbounds_map = tt;
  inbounds_keyed = tt;
}

pub update_user_inbounds-IsWell :
    (m : Memory) (user : User) (inbounds : List Inbound)
    → IsWell m
    → IsWell (update_user_inbounds m user inbounds)
unfolding update_user_inbounds
update_user_inbounds-IsWell m user inbounds w = record {
  users_map = put-IsMap _ _ _ w.users_map;
  users_keyed = put-Each _ _ _ _ refl w.users_keyed;
  inbounds_map = w.inbounds_map;
  inbounds_keyed = w.inbounds_keyed;
}

pub remove_user-IsWell : (m : Memory) (id : ℕ) → IsWell m → IsWell (remove_user m id)
unfolding remove_user
remove_user-IsWell m id w = record {
  users_map = delete-IsMap _ _ w.users_map;
  users_keyed = delete-Each _ _ _ w.users_keyed;
  inbounds_map = w.inbounds_map;
  inbounds_keyed = w.inbounds_keyed;
}

pub flush_users-IsWell : (m : Memory) → IsWell m → IsWell (flush_users m)
unfolding flush_users
flush_users-IsWell m w = record {
  users_map = tt;
  users_keyed = tt;
  inbounds_map = w.inbounds_map;
  inbounds_keyed = w.inbounds_keyed;
}

pub register_inbound-IsWell :
    (m : Memory) (inbound : Inbound) → IsWell m → IsWell (register_inbound m inbound)
unfolding register_inbound
register_inbound-IsWell m inbound w = record {
  users_map = w.users_map;
  users_keyed = w.users_keyed;
  inbounds_map = put-IsMap _ _ _ w.inbounds_map;
  inbounds_keyed = put-Each _ _ _ _ refl w.inbounds_keyed;
}

pub unregister_inbound-IsWell :
    (m : Memory) (tag : String) → IsWell m → IsWell (unregister_inbound m tag)
unfolding unregister_inbound
unregister_inbound-IsWell m tag w = record {
  users_map = w.users_map;
  users_keyed = w.users_keyed;
  inbounds_map = delete-IsMap _ _ w.inbounds_map;
  inbounds_keyed = delete-Each _ _ _ w.inbounds_keyed;
}

strip_users-none :
    (tag : String) (id : ℕ) (users : Dict ℕ User)
    → get id users ≡ none
    → get id (strip_users tag users) ≡ none
unfolding strip_users get
strip_users-none tag id [] h = refl
strip_users-none tag id ((k, u) ∷ rest) h = ground (arith, strip_users-none tag id rest)

strip_users-IsMap :
    (tag : String) (users : Dict ℕ User) → IsMap users → IsMap (strip_users tag users)
unfolding strip_users
strip_users-IsMap tag [] h = tt
strip_users-IsMap tag ((k, u) ∷ rest) h =
    (strip_users-none tag k rest h.0, strip_users-IsMap tag rest h.1)

strip_users-Each :
    (tag : String) (users : Dict ℕ User)
    → Each (λ id u. u.id ≡ id) users
    → Each (λ id u. u.id ≡ id) (strip_users tag users)
unfolding strip_users
strip_users-Each tag [] h = tt
strip_users-Each tag ((k, u) ∷ rest) h = (h.0, strip_users-Each tag rest h.1)

pub remove_inbound-IsWell : (m : Memory) (tag : String) → IsWell m → IsWell (remove_inbound m tag)
unfolding remove_inbound
remove_inbound-IsWell m tag w = record {
  users_map = strip_users-IsMap tag m.users w.users_map;
  users_keyed = strip_users-Each tag m.users w.users_keyed;
  inbounds_map = delete-IsMap _ _ w.inbounds_map;
  inbounds_keyed = delete-Each _ _ _ w.inbounds_keyed;
}
