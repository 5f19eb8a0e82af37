-- ===== src/Singbox/Lifecycle/Users.antt =====
-- internal/backend/singbox/backend.go, addStorageUsers: which identifiers the inbounds of the
-- configuration have accounts for.
use nde.Prelude.{
  String, Bool, true, false, ◌&&◌, ◌||◌, ◌⊎◌, inl, inr, Option, none, some, List, [], ◌∷◌, ◌==◌,
  ◌≡◌, refl, ap, ◌∙◌, sym, arith, text_key, if◌then◌else◌, ==_iff, Bool-cases, Option-cases,
}
use nde.Models.{
  Any, null, bool, int, float, str, strs, slice, obj, Items, nil, cons, Fields, end, field, User,
  Inbound,
}
use nde.Models.Objects.{field_at, set_field, to_map, to_items, append_items, field_at-set_field}
use nde.Backend.{Error}
use nde.Storage.{Memory, list_inbound_users}
use nde.Auth.{Packages, AuthAlgorithm, generate_uuid, generate_password, user_identifier}
use nde.Singbox.Config.{
  to_string, has_tag, is_named, users_of, change_users, has_inbound, put_items, change_inbounds,
  count_traffic, build_account, append_user,
}
use nde.Singbox.Config.Accounts.{accounts, account_of, accounts-append_user, has_tag-with_users}
use nde.Singbox.Lifecycle.{add_users, add_storage_users}

-- Some of the accounts has this name.
unfoldable pub holds : String → Items → Bool
unfolding is_named
holds ident nil = false
holds ident (cons u rest) = is_named ident u || holds ident rest

-- The configuration has an inbound with this tag.
unfoldable pub inbound_in : String → Fields → Bool
unfolding has_inbound to_items field_at
inbound_in t raw = has_inbound t (to_items (field_at "inbounds" raw))

holds-append_items :
    (ident : String) (xs ys : Items)
    → holds ident (append_items xs ys) ≡ (holds ident xs || holds ident ys)
unfolding holds append_items
holds-append_items ident nil ys = refl
holds-append_items ident (cons x xs) ys = ground (arith, holds-append_items ident xs ys)

has_inbound-change_users :
    (tag t : String) (change : Items → Items) (items : Items)
    → has_inbound t (change_users tag change items) ≡ has_inbound t items
unfolding has_inbound change_users
has_inbound-change_users tag t change nil = refl
has_inbound-change_users tag t change (cons item rest) = elim (Bool-cases (has_tag tag item)) [
  | inl hit ↦ rw hit (ground (arith, has_tag-with_users t item (change (users_of item))))
  | inr miss ↦ rw miss (ground (arith, has_inbound-change_users tag t change rest))
]

inbound_in-put_items :
    (tag t : String) (change : Items → Items) (found : Any) (raw : Fields)
    → field_at "inbounds" raw ≡ found
    → inbound_in t (put_items found (change_users tag change) raw) ≡ inbound_in t raw
unfolding inbound_in put_items to_items
inbound_in-put_items tag t change (slice items) raw e =
    ap (λ v. has_inbound t (to_items v))
      (field_at-set_field "inbounds" "inbounds" (slice (change_users tag change items)) raw)
    ∙ has_inbound-change_users tag t change items
    ∙ ap (λ v. has_inbound t (to_items v)) (sym e)
inbound_in-put_items tag t change (obj fields) raw e = refl
inbound_in-put_items tag t change null raw e = refl
inbound_in-put_items tag t change (bool b) raw e = refl
inbound_in-put_items tag t change (int n) raw e = refl
inbound_in-put_items tag t change (float n) raw e = refl
inbound_in-put_items tag t change (str s) raw e = refl
inbound_in-put_items tag t change (strs ss) raw e = refl

inbound_in-set_experimental :
    (t : String) (v : Any) (raw : Fields)
    → inbound_in t (set_field "experimental" v raw) ≡ inbound_in t raw
unfolding inbound_in
inbound_in-set_experimental t v raw =
    ap (λ z. has_inbound t (to_items z)) (field_at-set_field "experimental" "inbounds" v raw)

inbound_in-either :
    (t : String) (b : Bool) (x y raw : Fields)
    → inbound_in t x ≡ inbound_in t raw
    → inbound_in t y ≡ inbound_in t raw
    → inbound_in t (if b then x else y) ≡ inbound_in t raw
inbound_in-either t true x y raw p q = p
inbound_in-either t false x y raw p q = q

inbound_in-count_traffic :
    (t identifier : String) (raw : Fields)
    → inbound_in t (count_traffic identifier raw) ≡ inbound_in t raw
unfolding count_traffic
inbound_in-count_traffic t identifier raw =
    inbound_in-either t _ _ _ raw (inbound_in-set_experimental t _ raw)
      (inbound_in-set_experimental t _ raw)

module _ (P : Packages Error) (algo : AuthAlgorithm) where
  inbound_in-append_user :
      (t : String) (raw : Fields) (user : User) (inb : Inbound)
      → inbound_in t (append_user P algo raw user inb).1 ≡ inbound_in t raw
  unfolding append_user change_inbounds
  inbound_in-append_user t raw user inb =
      let identifier = user_identifier user.id user.username in
      elim (Bool-cases (has_inbound inb.tag (to_items (field_at "inbounds" raw)))) [
        | inl found ↦
            rw found
              (elim (account_of P algo user inb)
                as (λ made.
                  let r : Option Error × Fields = elim made [
                    | inl e ↦ (some e, raw)
                    | inr account ↦ (
                      none,
                      count_traffic identifier (
                          change_inbounds
                            (change_users inb.tag
                              (λ users. append_items users (cons (obj account) nil)))
                            raw),
                    )
                  ] in
                  inbound_in t r.1 ≡ inbound_in t raw) [
                    | inl e ↦ refl
                    | inr account ↦
                        inbound_in-count_traffic t identifier _
                        ∙ inbound_in-put_items inb.tag t
                            (λ users. append_items users (cons (obj account) nil))
                            (field_at "inbounds" raw) raw refl
                  ])
        | inr missing ↦ rw missing (inbound_in-count_traffic t identifier raw)
      ]

  module _ (ident identifier : String) (some_text : (ident == "") ≡ false) where
    is_named-name :
        (rest : Fields)
        → to_string (field_at "username" rest) ≡ ""
        → is_named ident (obj (field "name" (str identifier) rest)) ≡ (identifier == ident)
    unfolding is_named field_at to_map to_string
    is_named-name rest e =
        rw e (ground (arith, some_text, ==_iff "" ident, ==_iff ident "", ==_iff identifier ident))

    is_named-username :
        (rest : Fields)
        → to_string (field_at "name" rest) ≡ ""
        → is_named ident (obj (field "username" (str identifier) rest)) ≡ (identifier == ident)
    unfolding is_named field_at to_map to_string
    is_named-username rest e =
        rw e (ground (arith, some_text, ==_iff "" ident, ==_iff ident "", ==_iff identifier ident))

    -- An account has the identifier that it was built for, and no other.
    is_named-build_account_from :
        (seed protocol flow : String) (account : Fields) (made : Error ⊎ String)
        → generate_uuid P seed algo ≡ made
        → build_account P algo identifier seed protocol flow ≡ inr account
        → is_named ident (obj account) ≡ (identifier == ident)
    unfolding build_account field_at to_string
    is_named-build_account_from seed protocol flow account (inl e) made built =
        let password : Fields = field "password" (str (generate_password P seed algo)) end in
        ground (arith, made, built, is_named-name password refl, is_named-username password refl)
    is_named-build_account_from seed protocol flow account (inr u) made built =
        let password : Fields = field "password" (str (generate_password P seed algo)) end in
        ground (
          arith,
          made,
          built,
          is_named-name (field "uuid" (str u) end) refl,
          is_named-name (field "uuid" (str u) (field "flow" (str flow) end)) refl,
          is_named-name (field "uuid" (str u) password) refl,
          is_named-name password refl,
          is_named-username password refl,
        )

-- Some of these users has this identifier.
unfoldable pub any_named : String → List User → Bool
unfolding user_identifier
any_named ident [] = false
any_named ident (user ∷ rest) =
    user_identifier user.id user.username == ident || any_named ident rest

-- The storage has a user with this identifier for one of these inbounds, whose tag is t.
unfoldable pub wanted : String → String → Memory → List Inbound → Bool
unfolding any_named list_inbound_users
wanted t ident store [] = false
wanted t ident store (inb ∷ rest) =
    (inb.tag == t && any_named ident (list_inbound_users store inb.tag))
    || wanted t ident store rest

-- The configuration has each of the inbounds, under a tag that is not empty.
abbrev pub AllIn : List Inbound → Fields → Type 0
AllIn [] raw = Unit
AllIn (inb ∷ rest) raw =
    ((inb.tag == "") ≡ false) × ((inbound_in inb.tag raw ≡ true) × AllIn rest raw)

AllIn-same :
    (inbs : List Inbound) (raw raw' : Fields)
    → ((t : String) → inbound_in t raw' ≡ inbound_in t raw)
    → AllIn inbs raw
    → AllIn inbs raw'
AllIn-same [] raw raw' same all = tt
AllIn-same (inb ∷ rest) raw raw' same all =
    (all.0, (same inb.tag ∙ all.1.0, AllIn-same rest raw raw' same all.1.1))

module _ (P : Packages Error) (algo : AuthAlgorithm) (t ident : String)
    (some_text : (ident == "") ≡ false) where
  holds-appended :
      (hit there : Bool) (xs : Items) (account : Fields) (same : Bool)
      → there ≡ true
      → is_named ident (obj account) ≡ same
      → holds ident (if hit && there then append_items xs (cons (obj account) nil) else xs)
        ≡ (holds ident xs || (hit && same))
  unfolding holds
  holds-appended false there xs account same has named = ground arith
  holds-appended true false xs account same has named = cc
  holds-appended true true xs account same has named =
      holds-append_items ident xs (cons (obj account) nil) ∙ ground (arith, named)

  holds-append_user_from :
      (raw : Fields) (user : User) (inb : Inbound) (made : Error ⊎ Fields)
      → account_of P algo user inb ≡ made
      → (inb.tag == "") ≡ false
      → inbound_in inb.tag raw ≡ true
      → (append_user P algo raw user inb).0 ≡ none
      → holds ident (accounts t (append_user P algo raw user inb).1) ≡ (
          holds ident (accounts t raw)
          || (inb.tag == t && user_identifier user.id user.username == ident))
  unfolding append_user inbound_in
  holds-append_user_from raw user inb (inl e) made named there done =
      absurd (let failed : some e ≡ none = rw (there, made) at done in cc)
  holds-append_user_from raw user inb (inr account) made named there done =
      let identifier = user_identifier user.id user.username in
      ap (holds ident) (accounts-append_user P algo raw user inb account t named made)
      ∙ holds-appended (inb.tag == t) (has_inbound inb.tag (to_items (field_at "inbounds" raw)))
          (accounts t raw) account (identifier == ident) there
          (is_named-build_account_from P algo ident identifier some_text user.key inb.protocol
            (to_string (field_at "flow" inb.config)) account (generate_uuid P user.key algo) refl
            made)

  inbound_in-add_users :
      (k : String) (inb : Inbound) (users : List User) (raw : Fields)
      → inbound_in k (add_users P algo inb users raw).1 ≡ inbound_in k raw
  unfolding add_users
  inbound_in-add_users k inb [] raw = refl
  inbound_in-add_users k inb (user ∷ rest) raw =
      let one = inbound_in-append_user P algo k raw user inb in
      elim (Option-cases (append_user P algo raw user inb).0) [
        | inl ok ↦
            rw (ok, add_users)
              (inbound_in-add_users k inb rest (append_user P algo raw user inb).1 ∙ one)
        | inr (e, failed) ↦ rw (failed, add_users) one
      ]

  holds-add_users :
      (inb : Inbound) (users : List User) (raw : Fields)
      → (inb.tag == "") ≡ false
      → inbound_in inb.tag raw ≡ true
      → (add_users P algo inb users raw).0 ≡ none
      → holds ident (accounts t (add_users P algo inb users raw).1)
        ≡ (holds ident (accounts t raw) || (inb.tag == t && any_named ident users))
  unfolding add_users any_named
  holds-add_users inb [] raw named there done = ground arith
  holds-add_users inb (user ∷ rest) raw named there done =
      let raw' = (append_user P algo raw user inb).1 in
      elim (Option-cases (append_user P algo raw user inb).0) [
        | inl ok ↦
            let later =
              holds-add_users inb rest raw' named
                (inbound_in-append_user P algo inb.tag raw user inb ∙ there)
                (rw (ok, add_users) at done) in
            let one =
              holds-append_user_from raw user inb (account_of P algo user inb) refl named there
                ok in
            rw (ok, add_users) (ground (arith, later, one))
        | inr (e, failed) ↦
            absurd (let never : some e ≡ none = rw (failed, add_users) at done in cc)
      ]

  -- Where no account fails to be built, an inbound has accounts with an identifier exactly if it had
  -- one, or the storage has such a user for an inbound with this tag.
  pub holds-add_storage_users :
      (store : Memory) (inbs : List Inbound) (raw : Fields)
      → AllIn inbs raw
      → (add_storage_users P algo store inbs raw).0 ≡ none
      → holds ident (accounts t (add_storage_users P algo store inbs raw).1)
        ≡ (holds ident (accounts t raw) || wanted t ident store inbs)
  unfolding add_storage_users wanted
  holds-add_storage_users store [] raw all done = ground arith
  holds-add_storage_users store (inb ∷ rest) raw all done =
      let users = list_inbound_users store inb.tag in
      let raw' = (add_users P algo inb users raw).1 in
      elim (Option-cases (add_users P algo inb users raw).0) [
        | inl ok ↦
            let kept =
              AllIn-same rest raw raw' (λ k. inbound_in-add_users k inb users raw) all.1.1 in
            let later =
              holds-add_storage_users store rest raw' kept (rw (ok, add_storage_users) at done) in
            let one = holds-add_users inb users raw all.0 all.1.0 ok in
            rw (ok, add_storage_users) (ground (arith, later, one))
        | inr (e, failed) ↦
            absurd (let never : some e ≡ none = rw (failed, add_storage_users) at done in cc)
      ]
