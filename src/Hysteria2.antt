-- ===== src/Hysteria2.antt =====
-- internal/backend/hysteria2/backend.go: the backend for the hysteria2 proxy, which asks it over HTTP
-- whether a password may connect.
pub mod Health
pub mod Access
pub mod Config
pub mod Lifecycle
pub mod Runner
mod Tests
use nde.Prelude.{
  ℕ, String, ◌+◌, ◌%◌, Bool, true, false, Option, none, some, List, [], ◌∷◌, ◌++◌, ◌==◌, text_key,
  number_key, if◌then◌else◌,
}
use nde.Prelude.Dict.{Dict, get, put, delete}
use nde.Models.{User, Inbound}
use nde.Backend.{Error}
use nde.Auth.{Packages, AuthAlgorithm, generate_password, user_identifier}
use nde.Text.{cut_text}
use nde.Text.Decimal.{scan_uint32}

unfoldable pub contains_tag : String → Bool
contains_tag tag = tag == "hysteria2"

module _ (P : Packages Error) (algo : AuthAlgorithm) where
  -- AddUser, on `usersByPass`. It gives no error.
  unfoldable pub add_user : Dict String User → User → Inbound → Dict String User
  unfolding generate_password put
  add_user users user inbound = put (generate_password P user.key algo) user users

  -- RemoveUser, with the error that the POST to /kick ends in.
  unfoldable pub remove_user :
      Dict String User → User → Inbound → Option Error → Option Error × Dict String User
  unfolding generate_password delete
  remove_user users user inbound kicked = (kicked, delete (generate_password P user.key algo) users)

-- What authHandler answers.
pub data Answer : Type 0 where
  not_found : Answer
  ok : String → Answer

-- authHandler, for the password in the request's body.
unfoldable pub auth_handler : Dict String User → String → Answer
unfolding get user_identifier
auth_handler users pass = elim (get pass users) [
  | none ↦ not_found
  | some user ↦ ok (user_identifier user.id user.username)
]

-- GetUsages: a failed request gives no usages, and no error.
unfoldable pub traffic_of : String → Dict String ℕ → ℕ
unfolding get
traffic_of key usage = elim (get key usage) [ none ↦ 0 | some n ↦ n ]

unfoldable pub usages_from : Dict ℕ ℕ → Dict String (Dict String ℕ) → Dict ℕ ℕ
unfolding put traffic_of scan_uint32 cut_text
usages_from out [] = out
usages_from out ((ident, usage) ∷ rest) =
    usages_from
      (put (scan_uint32 (cut_text "." ident).0)
        ((traffic_of "tx" usage + traffic_of "rx" usage) % 18446744073709551616) out)
      rest

unfoldable pub get_usages : Option (Dict String (Dict String ℕ)) → Dict ℕ ℕ
unfolding usages_from
get_usages traffic = elim traffic [ none ↦ [] | some raw ↦ usages_from [] raw ]
