-- ===== src/Xray/Repopulate/Tests.antt =====
-- A concrete run of repopulateStorageUsers of internal/backend/xray/backend.go.
use nde.Prelude.{
  ℕ, String, Bool, false, not, ◌&&◌, ◌||◌, inr, Option, none, List, [], ◌∷◌, ◌==◌, ◌≡◌, refl,
  text_key,
}
use nde.Models.{Inbound, str, end, field}
use nde.Models.Objects.{field_at}
use nde.Backend.{Error}
use nde.Auth.{Packages, auth_plain, generate_uuid}
use nde.Storage.{Memory}
use nde.Xray.Config.Inbounds.{is_allowed}
use nde.Xray.Api.Pool.{new_api}
use nde.Xray.Api.Calls.{RpcError, Operation, add_user_operation, remove_user_operation, Xray}
use nde.Xray.Api.Calls.Served.{Served}
use nde.Xray.Repopulate.{repopulate_storage_users}
use nde.Xray.Repopulate.Complete.{wanted, repopulate_storage_users-wanted}

abbrev packages : Packages Error
packages = record {
  hash128 = λ seed. (0, 0);
  hex_encode = λ bytes. "";
  parse = λ seed. inr seed;
  from_bytes = λ bytes. inr "";
}

abbrev Emails : Type 0
Emails = String → String → Bool

abbrev answer_of : Emails → String → Operation → Option RpcError × Emails
answer_of has tag (add_user_operation email account) =
    (none, λ t e. (tag == t && email == e) || has t e)
answer_of has tag (remove_user_operation email) =
    (none, λ t e. not (tag == t && email == e) && has t e)

-- An xray that keeps the emails and gives no errors.
abbrev xray : Xray
xray = record {
  World = Emails;
  acquire = λ w. (none, w);
  dial = λ w. (none, w);
  alter_inbound = answer_of;
  query_stats = λ w pattern reset. (inr [], w);
  get_sys_stats = λ w. (none, w);
}

abbrev served : Served xray
served = record {
  has = λ w. w;
  acquire = λ w. (refl, refl);
  dial = λ w. (refl, refl);
  add = λ w tag email account. (tt, λ t e. refl);
  remove = λ w tag email. (tt, λ t e. refl);
}

abbrev wait : Emails → ℕ → Option Error × Emails
wait w delay = (none, w)

abbrev inbound : Inbound
inbound = record {
  tag = "in";
  protocol = "vless";
  config = field "tag" (str "in") (field "protocol" (str "vless") end);
}

abbrev store : Memory
store = record {
  users = (7, record { id = 7; username = "u"; key = "k"; inbounds = inbound ∷ [] }) ∷ [];
  inbounds = ("in", inbound) ∷ [];
}

abbrev nobody : Emails
nobody t e = false

abbrev no_hash : String → List ℕ
no_hash text = []

uuid : (seed : String) → (id : String) × (generate_uuid packages seed auth_plain ≡ inr id)
unfolding generate_uuid
uuid seed = (seed, refl)

repopulate_storage_users-wanted_example :
    let r =
      repopulate_storage_users xray wait packages no_hash auth_plain store
        (inbound ∷ [])
        (new_api, nobody) in
    (r.0 ≡ none) × ((t e : String) → r.1.1 t e ≡ (wanted store (inbound ∷ []) t e || nobody t e))
unfolding is_allowed field_at
repopulate_storage_users-wanted_example =
    repopulate_storage_users-wanted xray served wait packages no_hash auth_plain uuid store
      (inbound ∷ []) (new_api, nobody) ((refl, (refl, (refl, refl))), tt)
