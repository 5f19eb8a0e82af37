-- ===== src/Xray/Repopulate.antt =====
-- internal/backend/xray/backend.go: AddUser, RemoveUser and GetUsages of the backend, and the loop that
-- gives the users of the storage to an xray that was started.
pub mod Complete
mod Tests
use nde.Prelude.{
  ℕ, ◌*◌, String, Bool, true, false, ◌&&◌, ◌||◌, ◌⊎◌, inl, inr, Option, none, some, List, [], ◌∷◌,
  ◌++◌, ◌==◌, text_key,
}
use nde.Prelude.Dict.{Dict}
use nde.Models.{User, Inbound}
use nde.Models.Objects.{field_at}
use nde.Backend.{Error, wrapped, join_errors}
use nde.Auth.{Packages, AuthAlgorithm}
use nde.Storage.{Memory, list_inbound_users}
use nde.Text.{◌then_text◌}
use nde.Text.Decimal.{decimal}
use nde.Util.Retry.{retry}
use nde.Xray.Config.Inbounds.{to_string}
use nde.Xray.Api.Pool.{Api}
use nde.Xray.Api.Calls.{Xray, Result}
use nde.Xray.Api.Calls

-- The error of a result.
abbrev pub error_of {ℓ} : {R : Type ℓ} → Error ⊎ R → Option Error
error_of (inl e) = some e
error_of (inr r) = none

-- `wait` is the timer of util.Retry against the context.
module _ (X : Xray) (wait : X.World → ℕ → Option Error × X.World) where
  abbrev pub wait_with : Api × X.World → ℕ → Option Error × (Api × X.World)
  wait_with (a, w) delay = ((wait w delay).0, (a, (wait w delay).1))

  -- `RemoveUser`
  unfoldable pub remove_user : User → Inbound → Api × X.World → Option Error × (Api × X.World)
  unfolding retry Calls.remove_user
  remove_user user inbound =
      retry
        (λ s.
          let r = Calls.remove_user X s.0 s.1 inbound.tag user.id user.username in
          (error_of r.0, r.1))
        wait_with 5 (200 * 1000000)

  module _ (P : Packages Error) (sha256 : String → List ℕ) (algo : AuthAlgorithm) where
    unfoldable pub add_once : User → Inbound → Api × X.World → Option Error × (Api × X.World)
    unfolding Calls.add_user to_string field_at
    add_once user inbound s =
        let r =
          Calls.add_user X P sha256 algo s.0 s.1 inbound.tag user.id user.username user.key
            inbound.protocol (to_string (field_at "flow" inbound.config))
            (to_string (field_at "method" inbound.config)) in
        (error_of r.0, r.1)

    -- `AddUser`
    unfoldable pub add_user : User → Inbound → Api × X.World → Option Error × (Api × X.World)
    unfolding retry add_once
    add_user user inbound = retry (add_once user inbound) wait_with 5 (200 * 1000000)

    -- The error with the user's id and the tag, where there is one.
    unfoldable pub noted : User → Inbound → Option Error → List Error
    unfolding decimal ◌then_text◌
    noted user inbound none = []
    noted user inbound (some e) =
        wrapped ("uid=" then_text decimal user.id then_text " tag=" then_text inbound.tag) e ∷ []

    unfoldable pub add_users : Inbound → List User → Api × X.World → List Error × (Api × X.World)
    unfolding add_user noted
    add_users inbound [] s = ([], s)
    add_users inbound (user ∷ rest) s =
        let (err, s') = add_user user inbound s in
        let (errs, s'') = add_users inbound rest s' in (noted user inbound err ++ errs, s'')

    unfoldable pub add_inbounds :
        Memory → List Inbound → Api × X.World → List Error × (Api × X.World)
    unfolding add_users list_inbound_users
    add_inbounds store [] s = ([], s)
    add_inbounds store (inb ∷ rest) s =
        let (errs, s') = add_users inb (list_inbound_users store inb.tag) s in
        let (later, s'') = add_inbounds store rest s' in (errs ++ later, s'')

    -- `repopulateStorageUsers`, with the inbounds of ListInbounds.
    unfoldable pub repopulate_storage_users :
        Memory → List Inbound → Api × X.World → Option Error × (Api × X.World)
    unfolding add_inbounds join_errors
    repopulate_storage_users store inbounds s =
        let (errs, s') = add_inbounds store inbounds s in (join_errors errs, s')
