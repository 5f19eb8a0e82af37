-- ===== src/Hysteria2/Tests.antt =====
-- Concrete runs of internal/backend/hysteria2/backend.go, with the key as the password.
use nde.Prelude.{String, inr, some, [], ◌∷◌, ◌≡◌, text_key}
use nde.Models.{User, Inbound, end}
use nde.Backend.{Error, failed}
use nde.Auth.{Packages, auth_plain, generate_password}
use nde.Hysteria2.{not_found, auth_handler}
use nde.Hysteria2.Access.{adds, removes, access_run, last_word, auth_handler-access_run}

abbrev packages : Packages Error
packages = record {
  hash128 = λ seed. (0, 0);
  hex_encode = λ bytes. "";
  parse = λ seed. inr seed;
  from_bytes = λ bytes. inr "";
}

abbrev user : String → User
user key = record { id = 7; username = "u"; key = key; inbounds = [] }

abbrev inbound : Inbound
inbound = record { tag = "hysteria2"; protocol = "hysteria2"; config = end }

-- The removal of k fails, and k is not let in all the same.
auth_handler-access_run_example :
    auth_handler
      (access_run packages auth_plain []
        (adds (user "k") inbound ∷ removes (user "k") inbound (some (failed "refused")) ∷ []))
      "k"
    ≡ not_found
unfolding last_word generate_password
auth_handler-access_run_example =
    auth_handler-access_run packages auth_plain
      (adds (user "k") inbound ∷ removes (user "k") inbound (some (failed "refused")) ∷ []) "k"
