-- ===== src/Xray/Api/Calls/Served.antt =====
-- internal/backend/xray/api.go: adding and removing a user whatever xray has, against an xray that
-- answers as documented.
use nde.Prelude.{
  ℕ, String, Bool, true, not, ◌&&◌, ◌||◌, ◌⊎◌, inr, Option, none, some, List, ◌==◌, ◌≡◌, refl,
  arith, text_key, number_key, ap, ◌∙◌,
}
use nde.Backend.{Error}
use nde.Auth.{Packages, AuthAlgorithm, user_identifier}
use nde.Xray.Api.Account.{Account, build_account}
use nde.Xray.Api.Pool.{Api, connect}
use nde.Xray.Api.Calls.{
  RpcError, add_user_operation, remove_user_operation, Xray, is_already_exists_error,
  is_user_not_found_error, call, connected, proceed, answered, alter_with, add_user, remove_user,
}

-- The answer to an operation: nil, or an error that is fine.
abbrev pub IsFine : (RpcError → Bool) → Option RpcError → Type 0
IsFine fine none = Unit
IsFine fine (some e) = fine e ≡ true

-- An xray that can be reached and whose HandlerService adds and removes users by their emails:
-- `has` tells the emails of each inbound.
pub record Served (X : Xray) : Type 0 where
  pub has : X.World → String → String → Bool
  pub acquire : (w : X.World) → ((X.acquire w).0 ≡ none) × (has (X.acquire w).1 ≡ has w)
  pub dial : (w : X.World) → ((X.dial w).0 ≡ none) × (has (X.dial w).1 ≡ has w)
  pub add :
      (w : X.World) (tag email : String) (account : Account)
      → let r = X.alter_inbound w tag (add_user_operation email account) in
        IsFine is_already_exists_error r.0
        × ((t e : String) → has r.1 t e ≡ (tag == t && email == e || has w t e))
  pub remove :
      (w : X.World) (tag email : String)
      → let r = X.alter_inbound w tag (remove_user_operation email) in
        IsFine is_user_not_found_error r.0
        × ((t e : String) → has r.1 t e ≡ (not (tag == t && email == e) && has w t e))

module _ (X : Xray) (S : Served X) where
  proceed-none :
      {R : Type 0} (r : Option Error × X.World) (a : Api)
      (go : Api → X.World → (Error ⊎ R) × (Api × X.World))
      → r.0 ≡ none
      → proceed X r a go ≡ go a r.1
  unfolding proceed
  proceed-none (none, w) a go h = refl
  proceed-none (some e, w) a go h = absurd (ground (arith, h))

  -- A call reaches xray, which has the same users then.
  record Reaches {R : Type 0} (a : Api) (w : X.World)
      (go : ℕ → Api → X.World → (Error ⊎ R) × (Api × X.World)) : Type 0 where
    gen : ℕ
    api : Api
    world : X.World
    same : S.has world ≡ S.has w
    reached : call X a w go ≡ go gen api world

  connected-reaches :
      {R : Type 0} (conn : Option ℕ) (a : Api) (w : X.World)
      (go : ℕ → Api → X.World → (Error ⊎ R) × (Api × X.World))
      → (gen : ℕ) × (api : Api) × (world : X.World) × (S.has world ≡ S.has w)
        × (connected X conn a w go ≡ go gen api world)
  unfolding connected
  connected-reaches (some c) a w go = (a.conn_gen, a, w, refl, refl)
  connected-reaches none a w go = (
    (connect a true).1.conn_gen,
    (connect a true).1,
    (X.dial w).1,
    (S.dial w).1,
    proceed-none (X.dial w) a _ (S.dial w).0,
  )

  call-Reaches :
      {R : Type 0} (a : Api) (w : X.World) (go : ℕ → Api → X.World → (Error ⊎ R) × (Api × X.World))
      → Reaches a w go
  unfolding call
  call-Reaches a w go =
      let w' = (X.acquire w).1 in
      let next = connected-reaches a.conn a w' go in
      record {
        gen = next.0;
        api = next.1;
        world = next.2;
        same = next.3 ∙ (S.acquire w).1;
        reached =
            proceed-none (X.acquire w) a (λ b v. connected X b.conn b v go) (S.acquire w).0
            ∙ next.4;
      }

  answered-fine :
      (fine : RpcError → Bool) (gen : ℕ) (a : Api) (r : Option RpcError × X.World)
      → IsFine fine r.0
      → answered X fine gen a r ≡ (inr tt, (a, r.1))
  unfolding answered
  answered-fine fine gen a (none, w) h = refl
  answered-fine fine gen a (some e, w) h = rw h refl

  module _ (P : Packages Error) (sha256 : String → List ℕ) (algo : AuthAlgorithm) where
    -- With an xray that can be reached, AddUser of a user that has an account gives nil, also where
    -- the inbound has the user already; then that inbound has the user's identifier and nothing
    -- else has changed.
    pub add_user-has :
        (a : Api) (w : X.World) (tag : String) (uid : ℕ)
        (username key protocol flow method : String) (account : Account)
        → build_account P sha256 algo protocol key flow method ≡ inr account
        → let r = add_user X P sha256 algo a w tag uid username key protocol flow method in
          (r.0 ≡ inr tt)
          × ((t e : String)
              → S.has r.1.1 t e ≡ (tag == t && user_identifier uid username == e || S.has w t e))
    unfolding add_user alter_with
    add_user-has a w tag uid username key protocol flow method account built =
        let email = user_identifier uid username in
        let go : ℕ → Api → X.World → (Error ⊎ Unit) × (Api × X.World) = λ gen a' w'.
          alter_with X P sha256 algo tag email
            (build_account P sha256 algo protocol key flow method) gen a' w' in
        let reach = call-Reaches a w go in
        let added = S.add reach.world tag email account in
        let result =
          reach.reached
          ∙ ap (λ b. alter_with X P sha256 algo tag email b reach.gen reach.api reach.world) built
          ∙ answered-fine is_already_exists_error reach.gen reach.api
              (X.alter_inbound reach.world tag (add_user_operation email account)) added.0 in
        (
          ap (λ r. r.0) result,
          λ t e.
              ap (λ r. S.has r.1.1 t e) result
              ∙ added.1 t e
              ∙ ap (λ h. tag == t && email == e || h t e) reach.same,
        )

  -- With an xray that can be reached, RemoveUser gives nil, also where the inbound has no such
  -- user; then it does not have the user's identifier and nothing else has changed.
  pub remove_user-has :
      (a : Api) (w : X.World) (tag : String) (uid : ℕ) (username : String)
      → let r = remove_user X a w tag uid username in
        (r.0 ≡ inr tt)
        × ((t e : String)
            → S.has r.1.1 t e
              ≡ (not (tag == t && user_identifier uid username == e) && S.has w t e))
  unfolding remove_user
  remove_user-has a w tag uid username =
      let email = user_identifier uid username in
      let go : ℕ → Api → X.World → (Error ⊎ Unit) × (Api × X.World) = λ gen a' w'.
        answered X is_user_not_found_error gen a'
          (X.alter_inbound w' tag (remove_user_operation email)) in
      let reach = call-Reaches a w go in
      let removed = S.remove reach.world tag email in
      let result =
        reach.reached
        ∙ answered-fine is_user_not_found_error reach.gen reach.api
            (X.alter_inbound reach.world tag (remove_user_operation email)) removed.0 in
      (
        ap (λ r. r.0) result,
        λ t e.
            ap (λ r. S.has r.1.1 t e) result
            ∙ removed.1 t e
            ∙ ap (λ h. not (tag == t && email == e) && h t e) reach.same,
      )
