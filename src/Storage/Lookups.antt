-- ===== src/Storage/Lookups.antt =====
-- internal/storage/memory.go: what the reading methods return, by the two maps.
use nde.Prelude.{
  String, ℕ, Bool, ◌&&◌, ◌||◌, ◌≡◌, refl, Option, none, some, List, [], ◌∷◌, arith, number_key,
  text_key, ==_iff, ◌==◌, contains, is_some, is_empty, if◌then◌else◌, ap, ◌∙◌, sym, Option-cases,
  inl, inr,
}
use nde.Prelude.Dict.{Dict, get, Each, IsMap, get-Each}
use nde.Models.{User, Inbound, clone_inbounds_lem}
use nde.Storage.{
  Memory, all_inbounds, find_inbounds, list_inbounds, has_tag, get_user, list_users,
  list_inbound_users, list_values, users_of, clone_user,
}
use nde.Storage.IsWell.{IsWell}

-- An inbound is registered under this tag.
unfoldable pub registered : Memory → String → Bool
unfolding get
registered m tag = is_some (get tag m.inbounds)

abbrev Keyed : Dict String Inbound → Type 0
Keyed = Each (λ tag inb. inb.tag ≡ tag)

has_tag-all_inbounds :
    (t : String) (d : Dict String Inbound)
    → Keyed d
    → has_tag t (all_inbounds d) ≡ is_some (get t d)
unfolding has_tag all_inbounds get
has_tag-all_inbounds t [] h = refl
has_tag-all_inbounds t ((k, inb) ∷ rest) h =
    ground (arith, h.0, has_tag-all_inbounds t rest h.1, ==_iff inb.tag t, ==_iff k t)

has_tag-find_inbounds :
    (t : String) (d : Dict String Inbound) (tags : List String)
    → Keyed d
    → has_tag t (find_inbounds d tags) ≡ (contains t tags && is_some (get t d))
unfolding has_tag find_inbounds contains
has_tag-find_inbounds t d [] h = refl
has_tag-find_inbounds t d (x ∷ tags) h = elim (Option-cases (get x d)) [
  | inl missing ↦
      rw (missing, find_inbounds) (ground (arith, has_tag-find_inbounds t d tags h, ==_iff x t))
  | inr (inb, found) ↦
      let tagged = get-Each (λ tag (i : Inbound). i.tag ≡ tag) x inb d h found in
      rw (found, find_inbounds)
        (ground (arith, has_tag-find_inbounds t d tags h, ==_iff x t, tagged, found))
]

-- A tag is among the listed inbounds exactly if it is registered and was asked for; no tags at all
-- ask for everything.
pub has_tag-list_inbounds :
    (m : Memory) (t : String) (tags : List String)
    → IsWell m
    → has_tag t (list_inbounds m tags) ≡ ((is_empty tags || contains t tags) && registered m t)
unfolding list_inbounds registered
has_tag-list_inbounds m t [] w = has_tag-all_inbounds t m.inbounds w.inbounds_keyed
has_tag-list_inbounds m t (x ∷ tags) w =
    has_tag-find_inbounds t m.inbounds (x ∷ tags) w.inbounds_keyed

pub clone_user_lem : (u : User) → clone_user u ≡ u
unfolding clone_user
clone_user_lem u = ap (λ inbs. record u { inbounds = inbs }) (clone_inbounds_lem u.inbounds)

-- A reader gets a copy of the stored user.
pub get_user_lem : (m : Memory) (id : ℕ) → get_user m id ≡ get id m.users
unfolding get_user
get_user_lem m id = elim (Option-cases (get id m.users)) [
  | inl missing ↦ rw (missing, get_user)
  | inr (u, found) ↦ rw (found, get_user) (ap some (clone_user_lem u))
]

-- The first user of a list with this id.
unfoldable pub find_id : ℕ → List User → Option User
find_id id [] = none
find_id id (u ∷ rest) = if u.id == id then some u else find_id id rest

pub find_id-list_values :
    (id : ℕ) (users : Dict ℕ User)
    → Each (λ id u. u.id ≡ id) users
    → find_id id (list_values users) ≡ get id users
unfolding find_id list_values get
find_id-list_values id [] h = refl
find_id-list_values id ((k, u) ∷ rest) h =
    rw clone_user_lem (ground (arith, find_id-list_values id rest h.1, h.0))

-- The list of users has each stored user, and nothing else.
pub find_id-list_users :
    (m : Memory) (id : ℕ) → IsWell m → find_id id (list_users m) ≡ get_user m id
unfolding list_users
find_id-list_users m id w = find_id-list_values id m.users w.users_keyed ∙ sym (get_user_lem m id)

-- A user if it has the tag.
abbrev pub with_tag : String → Option User → Option User
with_tag tag none = none
with_tag tag (some u) = if has_tag tag u.inbounds then some u else none

find_id-users_of :
    (tag : String) (id : ℕ) (users : Dict ℕ User)
    → Each (λ id u. u.id ≡ id) users
    → IsMap users
    → find_id id (users_of tag users) ≡ with_tag tag (get id users)
unfolding find_id users_of get
find_id-users_of tag id [] h d = refl
find_id-users_of tag id ((k, u) ∷ rest) h d = ground (
  arith,
  clone_user_lem u,
  find_id-users_of tag id rest h.1 d.1,
  h.0,
  d.0,
  ==_iff k id,
  ==_iff u.id id,
)

-- The users of an inbound are exactly the stored users that have its tag.
pub find_id-list_inbound_users :
    (m : Memory) (tag : String) (id : ℕ)
    → IsWell m
    → find_id id (list_inbound_users m tag) ≡ with_tag tag (get_user m id)
unfolding list_inbound_users
find_id-list_inbound_users m tag id w =
    rw get_user_lem (find_id-users_of tag id m.users w.users_keyed w.users_map)

-- The first inbound of a list with this tag.
unfoldable pub find_tag : String → List Inbound → Option Inbound
find_tag t [] = none
find_tag t (inb ∷ rest) = if inb.tag == t then some inb else find_tag t rest

find_tag-all_inbounds :
    (t : String) (d : Dict String Inbound) → Keyed d → find_tag t (all_inbounds d) ≡ get t d
unfolding find_tag all_inbounds get
find_tag-all_inbounds t [] h = refl
find_tag-all_inbounds t ((k, inb) ∷ rest) h =
    ground (arith, h.0, find_tag-all_inbounds t rest h.1, ==_iff inb.tag t, ==_iff k t)

find_tag-find_inbounds :
    (t : String) (d : Dict String Inbound) (tags : List String)
    → Keyed d
    → find_tag t (find_inbounds d tags) ≡ (if contains t tags then get t d else none)
unfolding find_tag find_inbounds contains
find_tag-find_inbounds t d [] h = refl
find_tag-find_inbounds t d (x ∷ tags) h = elim (Option-cases (get x d)) [
  | inl missing ↦
      rw (missing, find_inbounds) (ground (arith, find_tag-find_inbounds t d tags h, ==_iff x t))
  | inr (inb, found) ↦
      let tagged = get-Each (λ tag (i : Inbound). i.tag ≡ tag) x inb d h found in
      rw (found, find_inbounds)
        (ground (arith, find_tag-find_inbounds t d tags h, ==_iff x t, tagged, found))
]

-- The list of inbounds has, of those that are registered, each that is asked for.
pub find_tag-list_inbounds :
    (m : Memory) (t : String) (tags : List String)
    → IsWell m
    → find_tag t (list_inbounds m tags)
      ≡ (if is_empty tags || contains t tags then get t m.inbounds else none)
unfolding list_inbounds
find_tag-list_inbounds m t [] w = find_tag-all_inbounds t m.inbounds w.inbounds_keyed
find_tag-list_inbounds m t (x ∷ tags) w =
    find_tag-find_inbounds t m.inbounds (x ∷ tags) w.inbounds_keyed
