-- ===== src/Hysteria2/Access.antt =====
-- internal/backend/hysteria2/backend.go: which passwords authHandler lets in.
use nde.Prelude.{
  String, Option, List, [], ◌∷◌, ◌==◌, ◌≡◌, refl, arith, text_key, ap, ◌∙◌, if◌then◌else◌,
}
use nde.Prelude.Dict.{Dict, get, get-put, get-delete}
use nde.Models.{User, Inbound}
use nde.Backend.{Error}
use nde.Auth.{Packages, AuthAlgorithm, generate_password, user_identifier}
use nde.Hysteria2.{Answer, not_found, ok, add_user, remove_user, auth_handler}

-- Calls of the service, with the result of the request that a removal makes.
pub data AccessCall : Type 0 where
  adds : User → Inbound → AccessCall
  removes : User → Inbound → Option Error → AccessCall

module _ (P : Packages Error) (algo : AuthAlgorithm) where
  unfoldable pub access_run : Dict String User → List AccessCall → Dict String User
  unfolding add_user remove_user
  access_run users [] = users
  access_run users (adds user inbound ∷ cs) = access_run (add_user P algo users user inbound) cs
  access_run users (removes user inbound kicked ∷ cs) =
      access_run (remove_user P algo users user inbound kicked).1 cs

module _ (P : Packages Error) (algo : AuthAlgorithm) where
  abbrev pass_of : User → String
  pass_of user = generate_password P user.key algo

  -- The answer for a password: the last call on a user with this password says it.
  unfoldable pub last_word : String → Answer → List AccessCall → Answer
  last_word pass so_far [] = so_far
  last_word pass so_far (adds user inbound ∷ cs) =
      last_word pass
        (if pass_of user == pass then ok (user_identifier user.id user.username) else so_far) cs
  last_word pass so_far (removes user inbound kicked ∷ cs) =
      last_word pass (if pass_of user == pass then not_found else so_far) cs

  auth_handler-access_run_from :
      (pass : String) (users : Dict String User) (cs : List AccessCall)
      → auth_handler (access_run P algo users cs) pass ≡ last_word pass (auth_handler users pass) cs
  unfolding access_run last_word auth_handler
  auth_handler-access_run_from pass users [] = refl
  auth_handler-access_run_from pass users (adds user inbound ∷ cs) =
      auth_handler-access_run_from pass (add_user P algo users user inbound) cs
      ∙ ap (λ a. last_word pass a cs)
          (unfold add_user in ground (arith, get-put (pass_of user) pass user users))
  auth_handler-access_run_from pass users (removes user inbound kicked ∷ cs) =
      auth_handler-access_run_from pass (remove_user P algo users user inbound kicked).1 cs
      ∙ ap (λ a. last_word pass a cs)
          (unfold remove_user in ground (arith, get-delete (pass_of user) pass users))

  -- After any calls, failed removals included, a password is let in, under the identifier of its
  -- user, exactly if the last call on a user with this password added it.
  pub auth_handler-access_run :
      (cs : List AccessCall) (pass : String)
      → auth_handler (access_run P algo [] cs) pass ≡ last_word pass not_found cs
  unfolding auth_handler get
  auth_handler-access_run cs pass = auth_handler-access_run_from pass [] cs
