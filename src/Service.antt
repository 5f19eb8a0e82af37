-- ===== src/Service.antt =====
-- internal/service/service.go: the state of the service, its routing of inbound tags to backends,
-- and the update of one user. `apply_user_data` is the section that the code runs under the user's
-- lock; the locks themselves are in Service/Locks.
pub mod Locks
pub mod Tags
pub mod Ledger
pub mod Retry
pub mod Stream
pub mod Apply
pub mod Serving
pub mod Agree
pub mod Sync
pub mod Resync
pub mod Reliable
pub mod Stats
pub mod Queries
mod Tests
use nde.Prelude.{
  ℕ, String, Bool, true, false, not, ◌||◌, Option, none, some, List, [], ◌∷◌, ◌++◌, ◌==◌,
  number_key, text_key, contains, insert, if◌then◌else◌, ltb, ◌*◌,
}
use nde.Models.{User, Inbound}
use nde.Backend.{Backends, Error, at_tag, join_errors}
use nde.Storage.{Memory, get_user, update_user_inbounds, list_inbounds}
use nde.Storage

-- Messages of the generated servicepb package, as far as the service reads them.
pub record PbUser : Type 0 where
  pub id : ℕ
  pub username : String
  pub key : String

pub record PbInbound : Type 0 where
  pub tag : String

pub record UserData : Type 0 where
  pub user : Option PbUser
  pub inbounds : List PbInbound

-- The fields of the service that change: the storage, and the world of the backends.
pub record Service (B : Backends) : Type 0 where
  pub store : Memory
  pub world : B.World

-- Those that stay as `New` sets them. Times are in nanoseconds.
pub record Settings : Type 0 where
  pub sync_timeout : ℕ
  pub repopulate_timeout : ℕ
  pub bulk_threshold : ℕ
  pub chunk_size : ℕ
  pub workers : ℕ
  pub retries : ℕ
  pub retry_delay : ℕ

at_least : ℕ → ℕ → ℕ
at_least least n = if ltb n 1 then least else n

pub new_settings : Settings
unfolding at_least
new_settings = record {
  sync_timeout = 90 * 1000000000;
  repopulate_timeout = 180 * 1000000000;
  bulk_threshold = at_least 1 200;
  chunk_size = at_least 1 512;
  workers = at_least 1 16;
  retries = at_least 1 3;
  retry_delay = at_least (100 * 1000000) (350 * 1000000);
}

unfoldable pub pb_user_to_model : Option PbUser → User
pb_user_to_model none = record { id = 0; username = ""; key = ""; inbounds = [] }
pb_user_to_model (some pb) = record {
  id = pb.id;
  username = pb.username;
  key = pb.key;
  inbounds = [];
}

unfoldable pub inbound_tags : List PbInbound → List String
inbound_tags [] = []
inbound_tags (inb ∷ rest) = inb.tag ∷ inbound_tags rest

unique_tags : List String → List String → List String
unfolding contains
unique_tags unique [] = unique
unique_tags unique (tag ∷ tags) =
    unique_tags (if tag == "" || contains tag unique then unique else unique ++ tag ∷ []) tags

pub resolve_inbounds : Memory → List String → List Inbound
unfolding unique_tags list_inbounds
resolve_inbounds store tags = list_inbounds store (unique_tags [] tags)

-- The keys of a `map[string]struct{}` filled from a list.
pub set_of : List String → List String → List String
unfolding insert contains
set_of tags [] = tags
set_of tags (tag ∷ rest) = set_of (insert tag tags) rest

pub tags_of : List Inbound → List String
tags_of [] = []
tags_of (inb ∷ rest) = inb.tag ∷ tags_of rest

-- The tags of the first set that the second lacks.
pub missing_tags : List String → List String → List String
unfolding contains
missing_tags [] other = []
missing_tags (tag ∷ rest) other =
    let later = missing_tags rest other in if not (contains tag other) then tag ∷ later else later

-- `removedTags` and `addedTags` of an update.
pub removed_tags : User → List String → List String
unfolding set_of tags_of missing_tags
removed_tags stored tags = missing_tags (set_of [] (tags_of stored.inbounds)) (set_of [] tags)

pub added_tags : User → List String → List String
unfolding set_of tags_of missing_tags
added_tags stored tags = missing_tags (set_of [] tags) (set_of [] (tags_of stored.inbounds))

-- The inbounds that an update of a stored user adds it to.
pub additions : Memory → User → List String → Bool → List Inbound
unfolding added_tags resolve_inbounds
additions store stored tags true = resolve_inbounds store tags
additions store stored tags false = resolve_inbounds store (added_tags stored tags)

module _ (B : Backends) where
  open B use {World}

  first_with : World → String → List String → Option String
  first_with w tag [] = none
  first_with w tag (name ∷ rest) =
      let later = first_with w tag rest in if B.contains_tag w name tag then some name else later

  -- The error of a tag that no backend has is none here; its callers only log it.
  pub backend_by_tag : World → String → Option String
  unfolding first_with
  backend_by_tag w tag = first_with w tag (B.range w)

  pub add_errors : World → User → List Inbound → List Error × World
  unfolding backend_by_tag
  add_errors w user [] = ([], w)
  add_errors w user (inb ∷ rest) = elim (backend_by_tag w inb.tag) [
    | none ↦ add_errors w user rest
    | some name ↦
        let (err, w') = B.add_user w name user inb in
        let (errs, w'') = add_errors w' user rest in
        (elim err [ none ↦ errs | some e ↦ at_tag inb.tag e ∷ errs ], w'')
  ]

  pub remove_errors : World → User → List Inbound → List Error × World
  unfolding backend_by_tag
  remove_errors w user [] = ([], w)
  remove_errors w user (inb ∷ rest) = elim (backend_by_tag w inb.tag) [
    | none ↦ remove_errors w user rest
    | some name ↦
        let (err, w') = B.remove_user w name user inb in
        let (errs, w'') = remove_errors w' user rest in
        (elim err [ none ↦ errs | some e ↦ at_tag inb.tag e ∷ errs ], w'')
  ]

  pub add_user : User → List Inbound → Service B → Option Error × Service B
  unfolding add_errors join_errors
  add_user user inbounds s =
      let (errs, w) = add_errors s.world user inbounds in (join_errors errs, record s { world = w })

  pub remove_user : User → List Inbound → Service B → Option Error × Service B
  unfolding remove_errors join_errors
  remove_user user inbounds s =
      let (errs, w) = remove_errors s.world user inbounds in
      (join_errors errs, record s { world = w })

  -- `if err := …; err != nil { return err }`, then the rest.
  infixl 5 ◌>>◌
  abbrev pub ◌>>◌ :
      Option Error × Service B → (Service B → Option Error × Service B) → Option Error × Service B
  (none, s) >> rest = rest s
  (some e, s) >> rest = (some e, s)

  -- `store.UpdateUserInbounds` and `return nil`.
  save_user : User → List Inbound → Service B → Option Error × Service B
  unfolding update_user_inbounds
  save_user user inbounds s =
      (none, record s { store = update_user_inbounds s.store user inbounds })

  -- `store.RemoveUser` and `return nil`.
  forget_user : ℕ → Service B → Option Error × Service B
  unfolding Storage.remove_user
  forget_user id s = (none, record s { store = Storage.remove_user s.store id })

  -- The cases of the switch, and the code behind it.
  pub apply_known : Service B → User → Option User → List String → Bool → Option Error × Service B
  unfolding add_user remove_user save_user forget_user additions removed_tags
  apply_known s user none [] force = (none, s)
  apply_known s user none (tag ∷ tags) force =
      let inbounds = resolve_inbounds s.store (tag ∷ tags) in
      add_user user inbounds s >> save_user user inbounds
  apply_known s user (some stored) [] force =
      remove_user stored stored.inbounds s >> forget_user user.id
  apply_known s user (some stored) (tag ∷ tags) force =
      let inbounds = resolve_inbounds s.store (tag ∷ tags) in
      remove_user stored (resolve_inbounds s.store (removed_tags stored (tag ∷ tags))) s
      >> (λ s. add_user stored (additions s.store stored (tag ∷ tags) force) s)
      >> save_user stored inbounds

  pub apply_user_data : Service B → UserData → Bool → Option Error × Service B
  unfolding apply_known pb_user_to_model inbound_tags get_user
  apply_user_data s msg force =
      let user = pb_user_to_model msg.user in
      if user.id == 0 || user.username == ""
      then (none, s)
      else apply_known s user (get_user s.store user.id) (inbound_tags msg.inbounds) force
