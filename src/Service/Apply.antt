-- ===== src/Service/Apply.antt =====
-- internal/service/service.go, applyUserData: what it does to the stored users, on every branch.
use nde.Prelude.{
  Bool-cases, inl, inr, String, Bool, ◌||◌, Option, none, some, List, [], ◌∷◌, ◌==◌, ◌≡◌, refl,
  arith, number_key, text_key, if◌then◌else◌,
}
use nde.Models.{User}
use nde.Backend.{Backends, Error}
use nde.Storage.{Memory, get_user, update_user_inbounds}
use nde.Storage
use nde.Storage.IsWell.{IsWell, update_user_inbounds-IsWell, remove_user-IsWell}
use nde.Service.{
  Service, UserData, resolve_inbounds, pb_user_to_model, inbound_tags, apply_known, apply_user_data,
}

-- The stored users after an update that reports no error.
unfoldable pub updated : Memory → User → Option User → List String → Memory
updated store user none [] = store
updated store user none (tag ∷ tags) =
    update_user_inbounds store user (resolve_inbounds store (tag ∷ tags))
updated store user (some stored) [] = Storage.remove_user store user.id
updated store user (some stored) (tag ∷ tags) =
    update_user_inbounds store stored (resolve_inbounds store (tag ∷ tags))

pub updated-IsWell :
    (store : Memory) (user : User) (o : Option User) (tags : List String)
    → IsWell store
    → IsWell (updated store user o tags)
unfolding updated
updated-IsWell store user none [] w = w
updated-IsWell store user none (tag ∷ tags) w = update_user_inbounds-IsWell store user _ w
updated-IsWell store user (some stored) [] w = remove_user-IsWell store user.id w
updated-IsWell store user (some stored) (tag ∷ tags) w =
    update_user_inbounds-IsWell store stored _ w

-- `before` if there is an error, else `after`.
abbrev pub unless_error {ℓ} : {A : Type ℓ} → Option Error → A → A → A
unless_error none before after = after
unless_error (some e) before after = before

-- A message for this user changes nothing.
abbrev pub ignored : User → Bool
ignored user = user.id == 0 || user.username == ""

-- The stored users after a message that is applied without an error: no change if the message names
-- no user; the requested inbounds, of those that are registered, for a new user; no such user if it
-- asks for no tag; and the new inbounds for a stored user, with its old name and key.
unfoldable pub outcome : Memory → UserData → Memory
unfolding updated
outcome store msg =
    let user = pb_user_to_model msg.user in
    if ignored user
    then store
    else updated store user (get_user store user.id) (inbound_tags msg.inbounds)

pub outcome-IsWell : (store : Memory) (msg : UserData) → IsWell store → IsWell (outcome store msg)
unfolding outcome
outcome-IsWell store msg w =
    let user = pb_user_to_model msg.user in
    elim (Bool-cases (ignored user)) [
      | inl skip ↦ rw skip w
      | inr heard ↦
          rw heard
            (updated-IsWell store user (get_user store user.id) (inbound_tags msg.inbounds) w)
    ]

pub unless_error-case {ℓ κ} :
    {A : Type ℓ} (P : A → Type κ) (e : Option Error) (before after : A)
    → P before
    → P after
    → P (unless_error e before after)
unless_error-case P none before after p q = q
unless_error-case P (some e) before after p q = p

module _ (B : Backends) where
  pub store-apply_known :
      (s : Service B) (user : User) (o : Option User) (tags : List String) (force : Bool)
      → (apply_known B s user o tags force).1.store
        ≡ unless_error (apply_known B s user o tags force).0 s.store (updated s.store user o tags)
  unfolding apply_known updated
  store-apply_known s user none [] force = refl
  store-apply_known s user none (tag ∷ tags) force = ground arith
  store-apply_known s user (some stored) [] force = ground arith
  store-apply_known s user (some stored) (tag ∷ tags) force = ground arith

  -- Of the service, an update changes the stored users alone: not at all if it reports an error,
  -- and else as `outcome` says, whatever the backends do.
  pub store-apply_user_data :
      (s : Service B) (msg : UserData) (force : Bool)
      → (apply_user_data B s msg force).1.store
        ≡ unless_error (apply_user_data B s msg force).0 s.store (outcome s.store msg)
  unfolding apply_user_data outcome
  store-apply_user_data s msg force = ground (
    arith,
    store-apply_known s (pb_user_to_model msg.user)
        (get_user s.store (pb_user_to_model msg.user).id) (inbound_tags msg.inbounds) force,
  )
