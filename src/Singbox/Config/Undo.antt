-- ===== src/Singbox/Config/Undo.antt =====
-- internal/backend/singbox/config.go: RemoveUser after AppendUser.
use nde.Prelude.{String, true, false, inr, ◌==◌, ◌≡◌, refl, sym, ◌∙◌, arith, text_key, ==_refl}
use nde.Models.{obj, Items, nil, cons, Fields, User, Inbound}
use nde.Models.Objects.{field_at, to_map, append_items}
use nde.Backend.{Error}
use nde.Auth.{Packages, AuthAlgorithm}
use nde.Auth.{user_identifier}
use nde.Singbox.Config.{to_string, is_named, without_named, remove_user, build_account, append_user}
use nde.Singbox.Config.Accounts.{accounts, account_of, accounts-remove_user, accounts-append_user}

module _ (P : Packages Error) (algo : AuthAlgorithm) where
  -- Every account that is built has the user's identifier.
  build_account-is_named :
      (identifier seed protocol flow : String) (account : Fields)
      → build_account P algo identifier seed protocol flow ≡ inr account
      → is_named identifier (obj account) ≡ true
  unfolding build_account is_named field_at to_map to_string
  build_account-is_named identifier seed protocol flow account built =
      ground (arith, built, ==_refl identifier)

  without_named-append :
      (identifier : String) (users : Items) (account : Fields)
      → is_named identifier (obj account) ≡ true
      → without_named identifier (append_items users (cons (obj account) nil))
        ≡ without_named identifier users
  unfolding without_named append_items
  without_named-append identifier nil account named = rw named refl
  without_named-append identifier (cons u users) account named =
      ground (arith, without_named-append identifier users account named)

  -- A removal after an addition leaves each inbound the accounts that the removal alone leaves.
  pub remove_user-append_user :
      (raw : Fields) (user : User) (inbound : Inbound) (account : Fields) (t : String)
      → (inbound.tag == "") ≡ false
      → account_of P algo user inbound ≡ inr account
      → accounts t (remove_user (append_user P algo raw user inbound).1 user inbound)
        ≡ accounts t (remove_user raw user inbound)
  remove_user-append_user raw user inbound account t named built =
      let identifier = user_identifier user.id user.username in
      accounts-remove_user (append_user P algo raw user inbound).1 user inbound t named
      ∙ ground (
        arith,
        accounts-append_user P algo raw user inbound account t named built,
        without_named-append identifier (accounts t raw) account (
            build_account-is_named identifier user.key inbound.protocol
              (to_string (field_at "flow" inbound.config)) account built),
      )
      ∙ sym (accounts-remove_user raw user inbound t named)
