-- ===== src/Service/Tests.antt =====
-- Concrete runs of internal/service/service.go, over a node with one backend that has every tag.
mod Streams
mod Usages
use nde.Prelude.{
  ℕ, String, Bool, true, false, not, ◌||◌, ◌&&◌, none, some, List, [], ◌∷◌, ◌==◌, ◌≡◌, refl, arith,
  number_key, text_key, contains, ap, ◌∙◌, ◌⊎◌, inl, inr, ==_iff, Bool-cases,
}
use nde.Models.{User, Inbound, end}
use nde.Auth.{user_identifier}
use nde.Backend.{Backends}
use nde.Storage.{new_memory, get_user, has_tag, register_inbound}
use nde.Storage.IsWell.{IsWell, new_memory-IsWell, register_inbound-IsWell}
use nde.Storage.Lookups.{registered}
use nde.Service.{
  Service, UserData, PbInbound, pb_user_to_model, apply_user_data, backend_by_tag, inbound_tags,
  added_tags,
}
use nde.Service.Ledger.{Ledger, covered, is_listed}
use nde.Service.Serving.{serves}
use nde.Service.Tags.{all_blank}
use nde.Service.Apply.{outcome, store-apply_user_data}
use nde.Service.Agree.{IsTracked, requests}
use nde.Service.Sync.{
  Agrees, apply_user_data-IsWell, forced-Agrees, forced_exact, unforced_serves, tags_in, user_of,
}
use nde.Service.Resync.{Updates, unforced_exact, resync_serves_everything, growth_drops_kept_tags}

-- The world is the relation of the identifiers and the tags on which they are served, as with xray and
-- sing-box.
abbrev pub node : Backends
node = record {
  World = String → String → Bool;
  range = λ w. "xray" ∷ [];
  contains_tag = λ w name t. true;
  add_user =
      λ w name u i. (none, λ k t. w k t || (user_identifier u.id u.username == k && i.tag == t));
  remove_user = λ w name u i.
      (none, λ k t. w k t && not (user_identifier u.id u.username == k && i.tag == t));
  get_usages = λ w name reset. (some [], w);
  ctx_err = λ w. none;
  wait = λ w delay. (none, w);
  with_timeout = λ w timeout. w;
  end_timeout = λ w. w;
}

-- The panel has the users 7 and 8.
abbrev listed_here : ℕ → String → Bool
listed_here id name = (id == 7 && name == "u") || (id == 8 && name == "v")

abbrev served_here : (String → String → Bool) → ℕ → String → Bool
served_here w uid t = (uid == 7 && w "7.u" t) || (uid == 8 && w "8.v" t)

identifier_7 : (u : User) → u.id ≡ 7 → u.username ≡ "u" → user_identifier u.id u.username ≡ "7.u"
unfolding user_identifier
identifier_7 u id name = ap (λ i. user_identifier i u.username) id ∙ ap (user_identifier 7) name

identifier_8 : (u : User) → u.id ≡ 8 → u.username ≡ "v" → user_identifier u.id u.username ≡ "8.v"
unfolding user_identifier
identifier_8 u id name = ap (λ i. user_identifier i u.username) id ∙ ap (user_identifier 8) name

-- What the identifier of a listed user says of the two names.
named_here :
    (u : User)
    → listed_here u.id u.username ≡ true
    → ((user_identifier u.id u.username == "7.u") ≡ (u.id == 7))
      × ((user_identifier u.id u.username == "8.v") ≡ (u.id == 8))
      × ((u.id ≡ 7) ⊎ (u.id ≡ 8))
named_here u listed = elim (Bool-cases (u.id == 7 && u.username == "u")) [
  | inl seven ↦
      let id : u.id ≡ 7 = ground (arith, seven, ==_iff u.id 7) in
      let name : u.username ≡ "u" = ground (arith, seven, ==_iff u.username "u") in
      rw (identifier_7 u id name, id) (refl, refl, inl refl)
  | inr other ↦
      let id : u.id ≡ 8 = ground (arith, listed, other, ==_iff u.id 8) in
      let name : u.username ≡ "v" = ground (arith, listed, other, ==_iff u.username "v") in
      rw (identifier_8 u id name, id) (refl, refl, inr refl)
]

added_here :
    (w : String → String → Bool) (u : User) (tag : String) (uid : ℕ) (t : String)
    → listed_here u.id u.username ≡ true
    → served_here (λ k t. w k t || (user_identifier u.id u.username == k && tag == t)) uid t
      ≡ (served_here w uid t || (u.id == uid && tag == t))
added_here w u tag uid t listed =
    ground (arith, named_here u listed, ==_iff uid 7, ==_iff uid 8, ==_iff u.id uid)

removed_here :
    (w : String → String → Bool) (u : User) (tag : String) (uid : ℕ) (t : String)
    → listed_here u.id u.username ≡ true
    → served_here (λ k t. w k t && not (user_identifier u.id u.username == k && tag == t)) uid t
      ≡ (served_here w uid t && not (u.id == uid && tag == t))
removed_here w u tag uid t listed =
    ground (arith, named_here u listed, ==_iff uid 7, ==_iff uid 8, ==_iff u.id uid)

pub ledger : Ledger node
unfolding covered backend_by_tag
ledger = record {
  lists = λ id name key. listed_here id name;
  has = served_here;
  has-add_user = λ w name u i uid t route listed done. added_here w u i.tag uid t listed;
  has-remove_user = λ w name u i uid t route listed done. removed_here w u i.tag uid t listed;
  covered-add_user = λ w name u i t. refl;
  covered-remove_user = λ w name u i t. refl;
  has-wait = λ w delay uid t. refl;
  covered-wait = λ w delay t. refl;
  has-with_timeout = λ w timeout uid t. refl;
  covered-with_timeout = λ w timeout t. refl;
  has-end_timeout = λ w uid t. refl;
  covered-end_timeout = λ w t. refl;
}

abbrev pub inbound : String → Inbound
inbound t = record { tag = t; protocol = "vless"; config = end }

-- Inbounds a, b and c, and no user.
abbrev pub empty_node : Service node
empty_node = record {
  store =
      register_inbound (register_inbound (register_inbound new_memory (inbound "a")) (inbound "b"))
        (inbound "c");
  world = λ k t. false;
}

abbrev pub asks : List PbInbound → UserData
asks inbounds = record {
  user = some (record { id = 7; username = "u"; key = "k" });
  inbounds = inbounds;
}

abbrev pub pb : String → PbInbound
pb t = record { tag = t }

pub empty_node-IsWell : IsWell empty_node.store
empty_node-IsWell =
    register_inbound-IsWell _ _
      (register_inbound-IsWell _ _ (register_inbound-IsWell _ _ new_memory-IsWell))

pub empty_node-Agrees : Agrees node ledger empty_node
unfolding serves get_user register_inbound new_memory ledger
empty_node-Agrees = record { listed = λ id. refl; at = λ uid t tr. ground arith }

listed_7 :
    (inbounds : List PbInbound) → is_listed node ledger (some (user_of (asks inbounds))) ≡ true
unfolding ledger pb_user_to_model
listed_7 inbounds = refl

-- User 7 with the inbound a.
abbrev pub one_user : Service node
one_user = (apply_user_data node empty_node (asks (pb "a" ∷ [])) true).1

pub one_user-IsWell : IsWell one_user.store
one_user-IsWell = apply_user_data-IsWell node empty_node (asks (pb "a" ∷ [])) true empty_node-IsWell

pub one_user-Agrees : Agrees node ledger one_user
unfolding apply_user_data new_memory register_inbound
one_user-Agrees =
    forced-Agrees node ledger empty_node (asks (pb "a" ∷ [])) empty_node-IsWell empty_node-Agrees
      (listed_7 (pb "a" ∷ [])) refl

IsTracked-in_one :
    (t : String)
    → (t == "") ≡ false
    → registered one_user.store t ≡ true
    → IsTracked node ledger one_user t
unfolding covered backend_by_tag
IsTracked-in_one t named known = record { named = named; known = known; routed = refl }

forced-Agrees_example :
    Agrees node ledger (apply_user_data node one_user (asks (pb "b" ∷ [])) true).1
unfolding apply_user_data new_memory register_inbound
forced-Agrees_example =
    forced-Agrees node ledger one_user (asks (pb "b" ∷ [])) one_user-IsWell one_user-Agrees
      (listed_7 (pb "b" ∷ [])) refl

forced_exact_example :
    ledger.has (apply_user_data node one_user (asks (pb "b" ∷ [])) true).1.world 7 "a" ≡ false
unfolding apply_user_data new_memory register_inbound registered requests all_blank
forced_exact_example =
    forced_exact node ledger one_user (asks (pb "b" ∷ [])) 7 "a" one_user-IsWell one_user-Agrees
      (listed_7 (pb "b" ∷ [])) refl refl (IsTracked-in_one "a" refl refl)

store-apply_user_data_example :
    (apply_user_data node one_user (asks []) false).1.store ≡ empty_node.store
unfolding apply_user_data new_memory register_inbound outcome
store-apply_user_data_example = store-apply_user_data node one_user (asks []) false

abbrev stored_user : User
stored_user = record { id = 7; username = "u"; key = "k"; inbounds = inbound "a" ∷ [] }

update_of :
    (first : PbInbound) (others : List PbInbound)
    → (apply_user_data node one_user (asks (first ∷ others)) false).0 ≡ none
    → Updates node one_user (asks (first ∷ others)) stored_user
unfolding apply_user_data new_memory register_inbound
update_of first others done = record {
  heard = refl;
  found = refl;
  first = first.tag;
  others = tags_in (asks others);
  asked = refl;
  done = done;
}

same_tag :
    (tag : String) → has_tag tag stored_user.inbounds ≡ contains tag (tags_in (asks (pb "a" ∷ [])))
unfolding has_tag contains inbound_tags
same_tag tag = ground arith

-- The user asks for a again, and is served on c.
resync_serves_everything_example :
    ledger.has (apply_user_data node one_user (asks (pb "a" ∷ [])) false).1.world 7 "c" ≡ true
unfolding apply_user_data new_memory register_inbound registered
resync_serves_everything_example =
    resync_serves_everything node ledger one_user (asks (pb "a" ∷ [])) stored_user "c"
      one_user-IsWell one_user-Agrees (listed_7 (pb "a" ∷ [])) (update_of (pb "a") [] refl) same_tag
      (IsTracked-in_one "c" refl refl)

keeps_a :
    (tag : String)
    → has_tag tag stored_user.inbounds ≡ true
    → contains tag (tags_in (asks (pb "a" ∷ pb "b" ∷ []))) ≡ true
unfolding has_tag contains inbound_tags
keeps_a tag = ground arith

-- The user asks for b as well, and loses a.
growth_drops_kept_tags_example :
    ledger.has (apply_user_data node one_user (asks (pb "a" ∷ pb "b" ∷ [])) false).1.world 7 "a"
    ≡ false
unfolding apply_user_data new_memory register_inbound registered has_tag
growth_drops_kept_tags_example =
    growth_drops_kept_tags node ledger one_user (asks (pb "a" ∷ pb "b" ∷ [])) stored_user "b" "a"
      one_user-IsWell one_user-Agrees (listed_7 (pb "a" ∷ pb "b" ∷ []))
      (update_of (pb "a") (pb "b" ∷ []) refl) keeps_a refl refl refl refl
      (IsTracked-in_one "a" refl refl)

unforced_serves_example :
    ledger.has (apply_user_data node one_user (asks (pb "a" ∷ [])) false).1.world 7 "b" ≡ true
unfolding apply_user_data new_memory register_inbound registered has_tag added_tags all_blank
unforced_serves_example =
    unforced_serves node ledger one_user (asks (pb "a" ∷ [])) stored_user "a" [] "b" one_user-IsWell
      one_user-Agrees (listed_7 (pb "a" ∷ [])) refl refl refl refl (IsTracked-in_one "b" refl refl)
