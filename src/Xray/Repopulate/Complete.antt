-- ===== src/Xray/Repopulate/Complete.antt =====
-- internal/backend/xray/backend.go, repopulateStorageUsers: the users that xray has afterwards.
use nde.Prelude.{
  ℕ, ◌*◌, String, Bool, true, false, ◌&&◌, ◌||◌, ◌⊎◌, inl, inr, Option, none, List, [], ◌∷◌, ◌++◌,
  ◌==◌, ◌≡◌, refl, arith, text_key, ap, ◌∙◌,
}
use nde.Models.{User, Inbound}
use nde.Models.Named.{AllOffered}
use nde.Models.Objects.{field_at}
use nde.Backend.{Error, join_errors}
use nde.Auth.{Packages, AuthAlgorithm, user_identifier, generate_uuid}
use nde.Storage.{Memory, list_inbound_users}
use nde.Util.Retry.{retry, retry_from}
use nde.Xray.Config.Inbounds.{is_allowed, to_string}
use nde.Xray.Api.Account.{Account, build_account}
use nde.Xray.Api.Account.Supported.{OnlyUuidFails, build_account-OnlyUuidFails}
use nde.Xray.Api.Pool.{Api}
use nde.Xray.Api.Calls.{Xray}
use nde.Xray.Api.Calls.Served.{Served, add_user-has}
use nde.Xray.Repopulate.{
  error_of, wait_with, add_once, add_user, noted, add_users, add_inbounds, repopulate_storage_users,
}

-- The users' identifiers.
unfoldable pub named : List User → String → Bool
unfolding user_identifier
named [] e = false
named (u ∷ rest) e = user_identifier u.id u.username == e || named rest e

-- The storage gives an inbound with the tag a user with the identifier.
unfoldable pub wanted : Memory → List Inbound → String → String → Bool
unfolding named list_inbound_users
wanted store [] t e = false
wanted store (inb ∷ rest) t e =
    (inb.tag == t && named (list_inbound_users store inb.tag) e) || wanted store rest t e

-- The first attempt succeeds.
retry-first :
    {W : Type 0} (call : W → Option Error × W) (wait : W → ℕ → Option Error × W) (delay : ℕ) (w : W)
    → (call w).0 ≡ none
    → retry call wait 5 delay w ≡ (none, (call w).1)
unfolding retry retry_from
retry-first call wait delay w h = rw h refl

module _ (X : Xray) (S : Served X) (wait : X.World → ℕ → Option Error × X.World)
    (P : Packages Error) (sha256 : String → List ℕ) (algo : AuthAlgorithm)
    (uuid : (seed : String) → (id : String) × (generate_uuid P seed algo ≡ inr id)) where
  built_from :
      (seed : String) (r : Error ⊎ Account)
      → OnlyUuidFails P sha256 algo seed r
      → (account : Account) × (r ≡ inr account)
  built_from seed (inr account) only = (account, refl)
  built_from seed (inl e) only = absurd (ground (arith, only, (uuid seed).1))

  add_user-wanted :
      (user : User) (inb : Inbound) (s : Api × X.World)
      → is_allowed inb.protocol ≡ true
      → let r = add_user X wait P sha256 algo user inb s in
        (r.0 ≡ none)
        × ((t e : String)
            → S.has r.1.1 t e
              ≡ (inb.tag == t && user_identifier user.id user.username == e || S.has s.1 t e))
  unfolding add_user add_once
  add_user-wanted user inb s allowed =
      let flow = to_string (field_at "flow" inb.config) in
      let method = to_string (field_at "method" inb.config) in
      let account =
        built_from user.key (build_account P sha256 algo inb.protocol user.key flow method)
          (build_account-OnlyUuidFails P sha256 algo inb.protocol user.key flow method allowed) in
      let once =
        add_user-has X S P sha256 algo s.0 s.1 inb.tag user.id user.username user.key inb.protocol
          flow method account.0 account.1 in
      let result =
        retry-first (add_once X wait P sha256 algo user inb) (wait_with X wait) (200 * 1000000) s
          (ap error_of once.0) in
      (ap (λ r. r.0) result, λ t e. ap (λ r. S.has r.1.1 t e) result ∙ once.1 t e)

  add_users-wanted :
      (inb : Inbound) (users : List User) (s : Api × X.World)
      → is_allowed inb.protocol ≡ true
      → let r = add_users X wait P sha256 algo inb users s in
        (r.0 ≡ [])
        × ((t e : String) → S.has r.1.1 t e ≡ ((inb.tag == t && named users e) || S.has s.1 t e))
  unfolding add_users noted named
  add_users-wanted inb [] s allowed = (refl, λ t e. ground arith)
  add_users-wanted inb (user ∷ rest) s allowed =
      let one = add_user-wanted user inb s allowed in
      let s' = (add_user X wait P sha256 algo user inb s).1 in
      let later = add_users-wanted inb rest s' allowed in
      (
        ap
              (λ err.
                noted X wait P sha256 algo user inb err
                ++ (add_users X wait P sha256 algo inb rest s').0)
              one.0
            ∙ later.0,
        λ t e. later.1 t e ∙ ground (arith, one.1 t e),
      )

  add_inbounds-wanted :
      (store : Memory) (inbs : List Inbound) (s : Api × X.World)
      → AllOffered is_allowed inbs
      → let r = add_inbounds X wait P sha256 algo store inbs s in
        (r.0 ≡ []) × ((t e : String) → S.has r.1.1 t e ≡ (wanted store inbs t e || S.has s.1 t e))
  unfolding add_inbounds wanted
  add_inbounds-wanted store [] s offered = (refl, λ t e. refl)
  add_inbounds-wanted store (inb ∷ rest) s offered =
      let users = list_inbound_users store inb.tag in
      let one = add_users-wanted inb users s offered.0.1.0 in
      let s' = (add_users X wait P sha256 algo inb users s).1 in
      let later = add_inbounds-wanted store rest s' offered.1 in
      (
        ap (λ errs. errs ++ (add_inbounds X wait P sha256 algo store rest s').0) one.0 ∙ later.0,
        λ t e. later.1 t e ∙ ground (arith, one.1 t e),
      )

  -- With an xray that can be reached, inbounds as they are resolved from a configuration and keys
  -- that all give UUIDs, the goroutine that repopulates reports no error, and then xray has, for each
  -- of these inbounds, the identifiers of the users that the storage lists for it, besides those that
  -- it had, and no others.
  pub repopulate_storage_users-wanted :
      (store : Memory) (inbs : List Inbound) (s : Api × X.World)
      → AllOffered is_allowed inbs
      → let r = repopulate_storage_users X wait P sha256 algo store inbs s in
        (r.0 ≡ none) × ((t e : String) → S.has r.1.1 t e ≡ (wanted store inbs t e || S.has s.1 t e))
  unfolding repopulate_storage_users join_errors
  repopulate_storage_users-wanted store inbs s offered =
      let all = add_inbounds-wanted store inbs s offered in
      (ap (λ errs. join_errors errs) all.0, all.1)
