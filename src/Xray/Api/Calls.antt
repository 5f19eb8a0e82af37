-- ===== src/Xray/Api/Calls.antt =====
-- internal/backend/xray/api.go: AddUser, RemoveUser, UserUsages and SysStats, one call each.

pub mod Served
use nde.Prelude.{
  ℕ, String, Bool, true, false, ◌&&◌, ◌||◌, ◌⊎◌, inl, inr, Option, none, some, List, [], ◌==◌,
  number_key, if◌then◌else◌,
}
use nde.Prelude.Dict.{Dict}
use nde.Models.{ℤ}
use nde.Backend.{Error, failed}
use nde.Auth.{Packages, AuthAlgorithm, user_identifier}
use nde.Text.{to_lower, contains_text}
use nde.Xray.Api.Account.{Account, build_account}
use nde.Xray.Api.Usages.{usages_from}
use nde.Xray.Api.Pool.{Api, connect, reset_if_gen}

-- An error of a gRPC call: its code, its status message, and `Error()`.
pub record RpcError : Type 0 where
  pub code : ℕ
  pub message : String
  pub text : String

-- The operations of AlterInbound; an account is added under an email.
pub data Operation : Type 0 where
  add_user_operation : String → Account → Operation
  remove_user_operation : String → Operation

-- What the calls ask of gRPC and of the xray behind it. `acquire` is how the wait for a place in the
-- semaphore ends: nil, or the context's error.
pub record Xray : Type 1 where
  pub World : Type 0
  pub acquire : World → Option Error × World
  pub dial : World → Option Error × World
  pub alter_inbound : World → String → Operation → Option RpcError × World
  pub query_stats : World → String → Bool → (RpcError ⊎ List (String × ℤ)) × World
  pub get_sys_stats : World → Option RpcError × World

-- codes.Unavailable is 14
unfoldable pub is_connection_level_error : RpcError → Bool
unfolding to_lower contains_text
is_connection_level_error e =
    let msg = to_lower e.text in
    e.code == 14
    || contains_text msg "eof"
    || contains_text msg "transport is closing"
    || contains_text msg "connection reset"
    || contains_text msg "broken pipe"

unfoldable pub is_already_exists_error : RpcError → Bool
unfolding to_lower contains_text
is_already_exists_error e = contains_text (to_lower e.message) "already exists"

unfoldable pub is_user_not_found_error : RpcError → Bool
unfolding to_lower contains_text
is_user_not_found_error e =
    let msg = to_lower e.message in contains_text msg "user" && contains_text msg "not found"

unfoldable pub never : RpcError → Bool
never e = false

module _ (X : Xray) where
  -- A result, and what it leaves.
  abbrev pub Result : Type 0 → Type 0
  Result R = (Error ⊎ R) × (Api × X.World)

  -- An error ends the call.
  pub proceed : {R : Type 0} → Option Error × X.World → Api → (Api → X.World → Result R) → Result R
  proceed (some e, w) a go = (inl e, (a, w))
  proceed (none, w) a go = go a w

  -- `connect`, and what follows it with the generation.
  pub connected :
      {R : Type 0} → Option ℕ → Api → X.World → (ℕ → Api → X.World → Result R) → Result R
  unfolding connect proceed
  connected (some c) a w go = go a.conn_gen a w
  connected none a w go =
      proceed (X.dial w) a (λ a' w'. let made = (connect a' true).1 in go made.conn_gen made w')

  pub call : {R : Type 0} → Api → X.World → (ℕ → Api → X.World → Result R) → Result R
  unfolding connected proceed
  call a w go = proceed (X.acquire w) a (λ a' w'. connected a'.conn a' w' go)

  -- The error of a call, after the connection is reset where it may be broken.
  pub failure : {R : Type 0} → RpcError → ℕ → Api → X.World → Result R
  unfolding is_connection_level_error reset_if_gen
  failure e gen a w =
      (inl (failed e.text), (if is_connection_level_error e then reset_if_gen a gen else a, w))

  -- The answer to a call that has no value; some errors mean that nothing was to do.
  pub answered : (fine : RpcError → Bool) → ℕ → Api → Option RpcError × X.World → Result Unit
  unfolding failure
  answered fine gen a (none, w) = (inr tt, (a, w))
  answered fine gen a (some e, w) = if fine e then (inr tt, (a, w)) else failure e gen a w

  pub usages_answer : ℕ → Api → (RpcError ⊎ List (String × ℤ)) × X.World → Result (Dict ℕ ℕ)
  unfolding failure usages_from
  usages_answer gen a (inl e, w) = failure e gen a w
  usages_answer gen a (inr stats, w) = (inr (usages_from [] stats), (a, w))

  module _ (P : Packages Error) (sha256 : String → List ℕ) (algo : AuthAlgorithm) where
    pub alter_with : String → String → Error ⊎ Account → ℕ → Api → X.World → Result Unit
    unfolding answered is_already_exists_error
    alter_with tag email (inl e) gen a w = (inl e, (a, w))
    alter_with tag email (inr account) gen a w =
        answered is_already_exists_error gen a
          (X.alter_inbound w tag (add_user_operation email account))

    -- `AddUser`
    unfoldable pub add_user :
        Api
        → X.World
        → (tag : String) (uid : ℕ) (username key protocol flow method : String) → Result Unit
    unfolding call alter_with user_identifier build_account
    add_user a w tag uid username key protocol flow method = call a w (λ gen a' w'.
        alter_with tag (user_identifier uid username)
          (build_account P sha256 algo protocol key flow method) gen a' w')

  -- `RemoveUser`
  unfoldable pub remove_user :
      Api → X.World → (tag : String) (uid : ℕ) (username : String) → Result Unit
  unfolding call answered user_identifier is_user_not_found_error
  remove_user a w tag uid username = call a w (λ gen a' w'.
      answered is_user_not_found_error gen a'
        (X.alter_inbound w' tag (remove_user_operation (user_identifier uid username))))

  -- `UserUsages`
  unfoldable pub user_usages : Api → X.World → (reset : Bool) → Result (Dict ℕ ℕ)
  unfolding call usages_answer
  user_usages a w reset =
      call a w (λ gen a' w'. usages_answer gen a' (X.query_stats w' "user>>>" reset))

  -- `SysStats`
  unfoldable pub sys_stats : Api → X.World → Result Unit
  unfolding call answered never
  sys_stats a w = call a w (λ gen a' w'. answered never gen a' (X.get_sys_stats w'))
