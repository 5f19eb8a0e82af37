-- ===== src/Storage.antt =====
-- internal/storage/memory.go and storage.go: the users and the inbounds that the node serves, in
-- two maps. A method that only reads returns its result, one that writes returns the new memory.
-- The mutex makes each method one step. A user's slice of inbounds is copied in and out, so no
-- caller shares it with the memory.
pub mod IsWell
pub mod Lookups
pub mod Calls
pub mod Listing
pub mod Inbounds
mod Tests
use nde.Prelude.{
  ℕ, String, Bool, true, false, not, Option, none, some, List, [], ◌∷◌, map, is_empty, ◌==◌,
  if◌then◌else◌, number_key, text_key,
}
use nde.Prelude.Dict.{Dict, get, put, delete}
use nde.Models.{User, Inbound, clone_inbounds}

pub record Memory : Type 0 where
  pub users : Dict ℕ User
  pub inbounds : Dict String Inbound

unfoldable pub new_memory : Memory
new_memory = record { users = []; inbounds = [] }

pub clone_user : User → User
clone_user u = record u { inbounds = clone_inbounds u.inbounds }

pub list_values : Dict ℕ User → List User
list_values [] = []
list_values ((_, u) ∷ rest) = clone_user u ∷ list_values rest

unfoldable pub list_users : Memory → List User
unfolding list_values clone_user clone_inbounds
list_users m = list_values m.users

unfoldable pub get_user : Memory → ℕ → Option User
unfolding clone_user clone_inbounds get
get_user m id = elim (get id m.users) [ none ↦ none | some u ↦ some (clone_user u) ]

unfoldable pub update_user_inbounds : Memory → User → List Inbound → Memory
unfolding clone_inbounds put
update_user_inbounds m user inbounds =
    let user' : User = record user { inbounds = clone_inbounds inbounds } in
    record m { users = put user'.id user' m.users }

unfoldable pub remove_user : Memory → ℕ → Memory
unfolding delete
remove_user m id = record m { users = delete id m.users }

unfoldable pub flush_users : Memory → Memory
flush_users m = record m { users = [] }

all_inbounds : Dict String Inbound → List Inbound
all_inbounds [] = []
all_inbounds ((_, inb) ∷ rest) = inb ∷ all_inbounds rest

find_inbounds : Dict String Inbound → List String → List Inbound
unfolding get
find_inbounds inbounds [] = []
find_inbounds inbounds (tag ∷ tags) =
    let rest = find_inbounds inbounds tags in
    elim (get tag inbounds) [ none ↦ rest | some inb ↦ inb ∷ rest ]

-- No tags at all stand for every inbound.
unfoldable pub list_inbounds : Memory → List String → List Inbound
unfolding all_inbounds find_inbounds
list_inbounds m tags =
    if is_empty tags then all_inbounds m.inbounds else find_inbounds m.inbounds tags

unfoldable pub register_inbound : Memory → Inbound → Memory
unfolding put
register_inbound m inbound = record m { inbounds = put inbound.tag inbound m.inbounds }

other_inbounds : String → List Inbound → List Inbound
other_inbounds tag [] = []
other_inbounds tag (inb ∷ rest) =
    let next = other_inbounds tag rest in if not (inb.tag == tag) then inb ∷ next else next

strip_users : String → Dict ℕ User → Dict ℕ User
unfolding other_inbounds
strip_users tag [] = []
strip_users tag ((id, user) ∷ rest) =
    (id, record user { inbounds = other_inbounds tag user.inbounds }) ∷ strip_users tag rest

unfoldable pub remove_inbound : Memory → String → Memory
unfolding delete strip_users
remove_inbound m tag = record { users = strip_users tag m.users; inbounds = delete tag m.inbounds }

unfoldable pub unregister_inbound : Memory → String → Memory
unfolding delete
unregister_inbound m tag = record m { inbounds = delete tag m.inbounds }

unfoldable pub has_tag : String → List Inbound → Bool
has_tag tag [] = false
has_tag tag (inb ∷ rest) = let later = has_tag tag rest in if inb.tag == tag then true else later

users_of : String → Dict ℕ User → List User
unfolding clone_user has_tag
users_of tag [] = []
users_of tag ((_, user) ∷ rest) =
    let later = users_of tag rest in
    if has_tag tag user.inbounds then clone_user user ∷ later else later

unfoldable pub list_inbound_users : Memory → String → List User
unfolding users_of
list_inbound_users m tag = users_of tag m.users
