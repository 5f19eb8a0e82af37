-- ===== src/Storage/Calls.antt =====
-- internal/storage/storage.go: any sequence of the writing methods of the interface, against two
-- functions from keys to values.
use nde.Prelude.{
  ℕ, String, Option, none, some, List, [], ◌∷◌, ◌==◌, ◌≡◌, refl, arith, number_key, text_key,
  if◌then◌else◌, ◌||◌, is_empty, contains, ap, ◌∙◌,
}
use nde.Prelude.Dict.{Dict, get, get-put, get-delete}
use nde.Models.{User, Inbound, clone_inbounds_lem}
use nde.Storage.{
  Memory, new_memory, get_user, update_user_inbounds, remove_user, flush_users, register_inbound,
  remove_inbound, unregister_inbound, list_users, list_inbounds, list_inbound_users, other_inbounds,
  strip_users,
}
use nde.Storage.IsWell.{
  IsWell, new_memory-IsWell, update_user_inbounds-IsWell, remove_user-IsWell, flush_users-IsWell,
  register_inbound-IsWell, remove_inbound-IsWell, unregister_inbound-IsWell,
}
use nde.Storage.Lookups.{
  get_user_lem, find_id, with_tag, find_tag, find_id-list_users, find_id-list_inbound_users,
  find_tag-list_inbounds,
}

-- The writing methods.
pub data Call : Type 0 where
  updates_user : User → List Inbound → Call
  removes_user : ℕ → Call
  flushes_users : Call
  registers : Inbound → Call
  removes_inbound : String → Call
  unregisters : String → Call

pub step : Memory → Call → Memory
unfolding update_user_inbounds remove_user flush_users register_inbound remove_inbound
    unregister_inbound
step m (updates_user user inbounds) = update_user_inbounds m user inbounds
step m (removes_user id) = remove_user m id
step m flushes_users = flush_users m
step m (registers inbound) = register_inbound m inbound
step m (removes_inbound tag) = remove_inbound m tag
step m (unregisters tag) = unregister_inbound m tag

unfoldable pub run : Memory → List Call → Memory
unfolding step
run m [] = m
run m (c ∷ cs) = run (step m c) cs

pub step-IsWell : (m : Memory) (c : Call) → IsWell m → IsWell (step m c)
unfolding step
step-IsWell m (updates_user user inbounds) w = update_user_inbounds-IsWell m user inbounds w
step-IsWell m (removes_user id) w = remove_user-IsWell m id w
step-IsWell m flushes_users w = flush_users-IsWell m w
step-IsWell m (registers inbound) w = register_inbound-IsWell m inbound w
step-IsWell m (removes_inbound tag) w = remove_inbound-IsWell m tag w
step-IsWell m (unregisters tag) w = unregister_inbound-IsWell m tag w

run-IsWell_from : (m : Memory) (cs : List Call) → IsWell m → IsWell (run m cs)
unfolding run
run-IsWell_from m [] w = w
run-IsWell_from m (c ∷ cs) w = run-IsWell_from (step m c) cs (step-IsWell m c w)

-- After any calls on a new memory each key has one entry, a user stands under its id and an inbound
-- under its tag.
pub run-IsWell : (cs : List Call) → IsWell (run new_memory cs)
run-IsWell cs = run-IsWell_from new_memory cs new_memory-IsWell

-- The inbounds with another tag, for the specification.
pub keep_other : String → List Inbound → List Inbound
keep_other tag [] = []
keep_other tag (inb ∷ rest) =
    let later = keep_other tag rest in if inb.tag == tag then later else inb ∷ later

-- The abstract storage: the user of each id and the inbound of each tag.
pub record View : Type 0 where
  pub user_at : ℕ → Option User
  pub inbound_at : String → Option Inbound

abbrev pub drop_tag : String → Option User → Option User
drop_tag tag none = none
drop_tag tag (some u) = some (record u { inbounds = keep_other tag u.inbounds })

unfoldable pub spec_step : View → Call → View
unfolding keep_other
spec_step v (updates_user user inbounds) = record v {
  user_at =
      λ id. if user.id == id then some (record user { inbounds = inbounds }) else v.user_at id;
}
spec_step v (removes_user id) = record v { user_at = λ j. if id == j then none else v.user_at j }
spec_step v flushes_users = record v { user_at = λ id. none }
spec_step v (registers inbound) = record v {
  inbound_at = λ tag. if inbound.tag == tag then some inbound else v.inbound_at tag;
}
spec_step v (removes_inbound tag) = record {
  user_at = λ id. drop_tag tag (v.user_at id);
  inbound_at = λ t. if tag == t then none else v.inbound_at t;
}
spec_step v (unregisters tag) = record v {
  inbound_at = λ t. if tag == t then none else v.inbound_at t;
}

pub spec_run : View → List Call → View
unfolding spec_step
spec_run v [] = v
spec_run v (c ∷ cs) = spec_run (spec_step v c) cs

-- A memory holds the users and inbounds of the abstract storage.
abbrev Shows : Memory → View → Type 0
Shows m v =
    ((id : ℕ) → get_user m id ≡ v.user_at id)
    × ((tag : String) → get tag m.inbounds ≡ v.inbound_at tag)

other_inbounds-eq :
    (tag : String) (inbs : List Inbound) → other_inbounds tag inbs ≡ keep_other tag inbs
unfolding other_inbounds keep_other
other_inbounds-eq tag [] = refl
other_inbounds-eq tag (inb ∷ rest) = ground (arith, other_inbounds-eq tag rest)

get-strip_users :
    (tag : String) (users : Dict ℕ User) (id : ℕ)
    → get id (strip_users tag users) ≡ drop_tag tag (get id users)
unfolding strip_users get
get-strip_users tag [] id = refl
get-strip_users tag ((k, u) ∷ rest) id =
    ground (arith, get-strip_users tag rest id, other_inbounds-eq tag u.inbounds)

step-Shows : (m : Memory) (v : View) (c : Call) → Shows m v → Shows (step m c) (spec_step v c)
unfolding step spec_step
step-Shows m v (updates_user user inbounds) (us, is) = (
  λ id. simp (get_user_lem, get-put, clone_inbounds_lem) (ground (arith, us id, get_user_lem m id)),
  is,
)
step-Shows m v (removes_user j) (us, is) =
    (λ id. simp (get_user_lem, get-delete) (ground (arith, us id, get_user_lem m id)), is)
step-Shows m v flushes_users (us, is) = (λ id. simp get_user_lem (unfold get in refl), is)
step-Shows m v (registers inbound) (us, is) = (
  λ id. simp get_user_lem (ground (arith, us id, get_user_lem m id)),
  λ t. simp get-put (ground (arith, is t)),
)
step-Shows m v (removes_inbound tag) (us, is) = (
  λ id. simp (get_user_lem, get-strip_users) (ground (arith, us id, get_user_lem m id)),
  λ t. simp get-delete (ground (arith, is t)),
)
step-Shows m v (unregisters tag) (us, is) = (
  λ id. simp get_user_lem (ground (arith, us id, get_user_lem m id)),
  λ t. simp get-delete (ground (arith, is t)),
)

run-Shows_from :
    (m : Memory) (v : View) (cs : List Call) → Shows m v → Shows (run m cs) (spec_run v cs)
unfolding run spec_run
run-Shows_from m v [] h = h
run-Shows_from m v (c ∷ cs) h = run-Shows_from (step m c) (spec_step v c) cs (step-Shows m v c h)

abbrev no_entries : View
no_entries = record { user_at = λ id. none; inbound_at = λ tag. none }

-- What the four reading methods give: the user of an id; a list with the users, one of an id; the same
-- for those users that have a tag; and a list with the inbounds that are asked for, one of a tag, or
-- with all of them where no tags are given.
pub record Reads (m : Memory) (v : View) : Type 0 where
  pub user : (id : ℕ) → get_user m id ≡ v.user_at id
  pub users : (id : ℕ) → find_id id (list_users m) ≡ v.user_at id
  pub users_of :
      (tag : String) (id : ℕ) → find_id id (list_inbound_users m tag) ≡ with_tag tag (v.user_at id)
  pub inbounds :
      (tag : String) (tags : List String)
      → find_tag tag (list_inbounds m tags)
        ≡ (if is_empty tags || contains tag tags then v.inbound_at tag else none)

Shows-Reads : (m : Memory) (v : View) → IsWell m → Shows m v → Reads m v
Shows-Reads m v w (us, is) = record {
  user = us;
  users = λ id. find_id-list_users m id w ∙ us id;
  users_of = λ tag id. find_id-list_inbound_users m tag id w ∙ ap (with_tag tag) (us id);
  inbounds = λ tag tags.
      find_tag-list_inbounds m tag tags w
      ∙ ap (λ o. if is_empty tags || contains tag tags then o else none) (is tag);
}

-- After any calls on a new memory the readers GetUser, ListUsers, ListInboundUsers and ListInbounds find
-- what two functions, from ids to users and from tags to inbounds, hold after the same calls.
pub run-Reads : (cs : List Call) → Reads (run new_memory cs) (spec_run no_entries cs)
unfolding new_memory get_user get
run-Reads cs =
    Shows-Reads (run new_memory cs) (spec_run no_entries cs) (run-IsWell cs)
      (run-Shows_from new_memory no_entries cs ((λ id. refl), (λ tag. refl)))
