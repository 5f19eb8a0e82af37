-- ===== src/Singbox/Config/Accounts.antt =====
-- internal/backend/singbox/config.go: the accounts of each inbound after AppendUser and RemoveUser.
use nde.Prelude.{
  String, Bool, true, false, ◌&&◌, ◌⊎◌, inl, inr, ◌==◌, ◌≡◌, refl, ap, ◌∙◌, arith, text_key,
  if◌then◌else◌, ==_iff, Bool-cases,
}
use nde.Models.{
  Any, null, bool, int, float, str, strs, slice, obj, Items, nil, cons, Fields, User, Inbound,
}
use nde.Models.Objects.{field_at, set_field, to_map, to_items, append_items, field_at-set_field}
use nde.Backend.{Error}
use nde.Auth.{Packages, AuthAlgorithm}
use nde.Auth.{user_identifier}
use nde.Singbox.Config.{
  to_string, has_tag, users_of, with_users, change_users, has_inbound, put_items, change_inbounds,
  without_named, remove_user, count_traffic, build_account, append_user,
}

unfoldable pub find_users : String → Items → Items
unfolding has_tag users_of
find_users tag nil = nil
find_users tag (cons item rest) =
    let later = find_users tag rest in if has_tag tag item then users_of item else later

-- The accounts of the first inbound with this tag.
unfoldable pub accounts : String → Fields → Items
unfolding find_users field_at to_items
accounts tag raw = find_users tag (to_items (field_at "inbounds" raw))

pub has_tag-with_users :
    (t : String) (item : Any) (users : Items) → has_tag t (with_users item users) ≡ has_tag t item
unfolding has_tag with_users to_map
has_tag-with_users t (obj fields) users =
    ap (λ v. to_string v == t) (field_at-set_field "users" "tag" (slice users) fields)
has_tag-with_users t null users = refl
has_tag-with_users t (bool b) users = refl
has_tag-with_users t (int n) users = refl
has_tag-with_users t (float n) users = refl
has_tag-with_users t (str s) users = refl
has_tag-with_users t (strs ss) users = refl
has_tag-with_users t (slice is) users = refl

users_of-with_users :
    (tag : String) (item : Any) (users : Items)
    → (tag == "") ≡ false
    → has_tag tag item ≡ true
    → users_of (with_users item users) ≡ users
unfolding users_of has_tag with_users to_map to_items field_at to_string
users_of-with_users tag (obj fields) users named hit =
    ap to_items (field_at-set_field "users" "users" (slice users) fields)
users_of-with_users tag null users named hit = ground (arith, ==_iff tag "", ==_iff "" tag)
users_of-with_users tag (bool b) users named hit = ground (arith, ==_iff tag "", ==_iff "" tag)
users_of-with_users tag (int n) users named hit = ground (arith, ==_iff tag "", ==_iff "" tag)
users_of-with_users tag (float n) users named hit = ground (arith, ==_iff tag "", ==_iff "" tag)
users_of-with_users tag (str s) users named hit = ground (arith, ==_iff tag "", ==_iff "" tag)
users_of-with_users tag (strs ss) users named hit = ground (arith, ==_iff tag "", ==_iff "" tag)
users_of-with_users tag (slice is) users named hit = ground (arith, ==_iff tag "", ==_iff "" tag)

has_tag-same : (tag t : String) (item : Any) → has_tag tag item ≡ true → has_tag t item ≡ (tag == t)
unfolding has_tag
has_tag-same tag t item hit = ground (
  arith,
  ==_iff (to_string (field_at "tag" (to_map item))) tag,
  ==_iff (to_string (field_at "tag" (to_map item))) t,
  ==_iff tag t,
)

find_users-change_users :
    (tag t : String) (change : Items → Items) (items : Items)
    → (tag == "") ≡ false
    → find_users t (change_users tag change items) ≡ (
        if tag == t && has_inbound tag items
        then change (find_users t items)
        else find_users t items)
unfolding find_users change_users has_inbound
find_users-change_users tag t change nil named = ground arith
find_users-change_users tag t change (cons item rest) named = elim (Bool-cases (has_tag tag item)) [
  | inl hit ↦ rw hit (
      ground (
        arith,
        has_tag-with_users t item (change (users_of item)),
        users_of-with_users tag item (change (users_of item)) named hit,
        has_tag-same tag t item hit,
      ))
  | inr miss ↦ rw miss (
      ground (
        arith,
        find_users-change_users tag t change rest named,
        has_tag-same t tag item,
        ==_iff tag t,
        ==_iff t tag,
      ))
]

module _ (tag t : String) (change : Items → Items) (named : (tag == "") ≡ false) where
  accounts-put_items :
      (found : Any) (raw : Fields)
      → field_at "inbounds" raw ≡ found
      → accounts t (put_items found (change_users tag change) raw) ≡ (
          if tag == t && has_inbound tag (to_items found)
          then change (find_users t (to_items found))
          else find_users t (to_items found))
  unfolding accounts put_items to_items has_inbound find_users
  accounts-put_items (slice items) raw e =
      ap (λ v. find_users t (to_items v))
        (field_at-set_field "inbounds" "inbounds" (slice (change_users tag change items)) raw)
      ∙ find_users-change_users tag t change items named
  accounts-put_items (obj fields) raw e = rw e (ground arith)
  accounts-put_items null raw e = rw e (ground arith)
  accounts-put_items (bool b) raw e = rw e (ground arith)
  accounts-put_items (int n) raw e = rw e (ground arith)
  accounts-put_items (float n) raw e = rw e (ground arith)
  accounts-put_items (str s) raw e = rw e (ground arith)
  accounts-put_items (strs ss) raw e = rw e (ground arith)

  accounts-change_inbounds :
      (raw : Fields)
      → accounts t (change_inbounds (change_users tag change) raw) ≡ (
          if tag == t && has_inbound tag (to_items (field_at "inbounds" raw))
          then change (accounts t raw)
          else accounts t raw)
  unfolding change_inbounds accounts
  accounts-change_inbounds raw = accounts-put_items (field_at "inbounds" raw) raw refl

accounts-set_experimental :
    (t : String) (v : Any) (raw : Fields)
    → accounts t (set_field "experimental" v raw) ≡ accounts t raw
unfolding accounts
accounts-set_experimental t v raw =
    ap (λ z. find_users t (to_items z)) (field_at-set_field "experimental" "inbounds" v raw)

accounts-either :
    (t : String) (b : Bool) (x y raw : Fields)
    → accounts t x ≡ accounts t raw
    → accounts t y ≡ accounts t raw
    → accounts t (if b then x else y) ≡ accounts t raw
accounts-either t true x y raw p q = p
accounts-either t false x y raw p q = q

accounts-count_traffic :
    (t identifier : String) (raw : Fields)
    → accounts t (count_traffic identifier raw) ≡ accounts t raw
unfolding count_traffic
accounts-count_traffic t identifier raw =
    accounts-either t _ _ _ raw (accounts-set_experimental t _ raw)
      (accounts-set_experimental t _ raw)

no_inbound : (t : String) (items : Items) → has_inbound t items ≡ false → find_users t items ≡ nil
unfolding has_inbound find_users
no_inbound t nil e = refl
no_inbound t (cons item rest) e = ground (arith, no_inbound t rest)

-- RemoveUser takes the accounts with the user's identifier from the inbound's accounts, all of
-- them, and leaves the others in their order; other inbounds keep theirs.
pub accounts-remove_user :
    (raw : Fields) (user : User) (inbound : Inbound) (t : String)
    → (inbound.tag == "") ≡ false
    → accounts t (remove_user raw user inbound) ≡ (
        if inbound.tag == t
        then without_named (user_identifier user.id user.username) (accounts t raw)
        else accounts t raw)
unfolding remove_user without_named accounts
accounts-remove_user raw user inbound t named =
    accounts-change_inbounds inbound.tag t (without_named (user_identifier user.id user.username))
      named raw
    ∙ ground (arith, no_inbound t (to_items (field_at "inbounds" raw)), ==_iff inbound.tag t)

module _ (P : Packages Error) (algo : AuthAlgorithm) where
  -- The account that AppendUser builds, or its error.
  abbrev pub account_of : User → Inbound → Error ⊎ Fields
  account_of user inbound =
      build_account P algo (user_identifier user.id user.username) user.key inbound.protocol
        (to_string (field_at "flow" inbound.config))

  -- AppendUser puts the account behind those of the inbound with the tag, if there is one, also if
  -- the user has an account there; other inbounds keep theirs.
  pub accounts-append_user :
      (raw : Fields) (user : User) (inbound : Inbound) (account : Fields) (t : String)
      → (inbound.tag == "") ≡ false
      → account_of user inbound ≡ inr account
      → accounts t (append_user P algo raw user inbound).1 ≡ (
          if inbound.tag == t && has_inbound inbound.tag (to_items (field_at "inbounds" raw))
          then append_items (accounts t raw) (cons (obj account) nil)
          else accounts t raw)
  unfolding append_user
  accounts-append_user raw user inbound account t named built =
      let identifier = user_identifier user.id user.username in
      let change : Items → Items = λ users. append_items users (cons (obj account) nil) in
      elim (Bool-cases (has_inbound inbound.tag (to_items (field_at "inbounds" raw)))) [
        | inl found ↦
            rw (found, built)
              (accounts-count_traffic t identifier
                  (change_inbounds (change_users inbound.tag change) raw)
                ∙ accounts-change_inbounds inbound.tag t change named raw
                ∙ ground (arith, found))
        | inr missing ↦
            rw missing (accounts-count_traffic t identifier raw ∙ ground (arith, missing))
      ]
