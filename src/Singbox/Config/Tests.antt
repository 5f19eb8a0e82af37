-- ===== src/Singbox/Config/Tests.antt =====
-- Concrete runs of internal/backend/singbox/config.go, with the key as the password.
use nde.Prelude.{String, inr, [], ◌≡◌, refl}
use nde.Models.{Any, str, slice, obj, nil, cons, Fields, end, field, User, Inbound}
use nde.Prelude.{text_key}
use nde.Backend.{Error}
use nde.Auth.{Packages, auth_plain}
use nde.Auth.{user_identifier}
use nde.Singbox.Config.{remove_user, append_user, build_account}
use nde.Singbox.Config.Accounts.{accounts}
use nde.Singbox.Config.Undo.{remove_user-append_user}

abbrev packages : Packages Error
packages = record {
  hash128 = λ seed. (0, 0);
  hex_encode = λ bytes. "";
  parse = λ seed. inr seed;
  from_bytes = λ bytes. inr "";
}

abbrev inbound : Inbound
inbound = record { tag = "in"; protocol = "trojan"; config = end }

abbrev user : User
user = record { id = 7; username = "u"; key = "k"; inbounds = [] }

abbrev account : String → String → Any
account name key = obj (field "name" (str name) (field "password" (str key) end))

-- An inbound with one account.
abbrev raw : Fields
raw =
    field "inbounds"
      (slice (
        cons (obj (field "tag" (str "in") (field "users" (slice (cons (account "v" "l") nil)) end)))
          nil))
      end

remove_user-append_user_example :
    accounts "in" (remove_user (append_user packages auth_plain raw user inbound).1 user inbound)
    ≡ accounts "in" (remove_user raw user inbound)
unfolding user_identifier
remove_user-append_user_example =
    remove_user-append_user packages auth_plain raw user inbound
      (field "name" (str "7.u") (field "password" (str "k") end)) "in" refl
      (unfold build_account in refl)

abbrev no_key : String → String
no_key private_key = ""
