-- ===== src/Xray/Api/Tests.antt =====
-- Concrete calls of internal/backend/xray/api.go.
use nde.Prelude.{
  ℕ, zero, suc, ◌≤◌, String, Bool, true, false, not, ◌&&◌, ◌||◌, ◌⊎◌, inr, Option, none, some, List,
  [], ◌∷◌, map, ◌==◌, ◌≡◌, refl, arith, text_key,
}
use nde.Models.{pos}
use nde.Backend.{Error}
use nde.Auth.{Packages}
use nde.Text.{contains_text}
use nde.Text.Base64.Roundtrip.{AllBytes}
use nde.Xray.Api.Account.{ensure_base64_password}
use nde.Xray.Api.Account.Keys.{IsKey, key_size, ensure_base64_password-IsKey}
use nde.Xray.Api.Usages.{Traffic, as_stat, usage_of, usages_from, total, usages_from-as_stat}
use nde.Xray.Api.Calls.{
  RpcError, Operation, add_user_operation, remove_user_operation, Xray, is_already_exists_error,
  is_user_not_found_error,
}
use nde.Xray.Api.Calls.Served.{Served}
use nde.Xray.Api.Pool.{
  Api, failing, returning, first, System, started, Reach, here, later, begins, admits, connects,
  fails, new_api, acquire_sem, connect, reset_if_gen,
}
use nde.Xray.Api.Pool.Inv.{in_flight}
use nde.Xray.Api.Pool.Safety.{in_flight_bounded, reset_if_gen-conn}

abbrev packages : Packages Error
packages = record {
  hash128 = λ seed. (0, 0);
  hex_encode = λ bytes. "";
  parse = λ seed. inr seed;
  from_bytes = λ bytes. inr "";
}

abbrev no_hash : String → List ℕ
no_hash text = []

-- One call that has dialed, and whose connection is broken.
abbrev api : Api
api = record { conn = some 1; conn_gen = 1; dialed = 1; slots = 1 }

abbrev broken : System
broken = record { api = api; calls = failing 1 1 ∷ [] }

broken-Reach : Reach started broken
unfolding started new_api acquire_sem connect
broken-Reach =
    let waiting : Api = record { conn = none; conn_gen = 0; dialed = 0; slots = 1 } in
    later
      (later (later (later here (begins started)) (admits new_api waiting refl (first [])))
        (connects waiting api true 1 1 refl (first [])))
      (fails api 1 1 (first []))

in_flight_bounded_example :
    (in_flight broken.calls ≡ broken.api.slots) × (in_flight broken.calls ≤ 8)
in_flight_bounded_example = in_flight_bounded broken broken-Reach

reset_if_gen-conn_example :
    ((reset_if_gen broken.api 1).conn ≡ broken.api.conn) ⊎ (broken.api.conn ≡ some 1)
reset_if_gen-conn_example =
    reset_if_gen-conn broken 1 1 (returning ∷ []) broken-Reach (omega arith) (first [])

-- Two counters of one user, whose name has dots and a separator, and one of another user.
abbrev traffic : List Traffic
traffic =
    record { uid = 7; username = "a.b>>>c>>>traffic>>>uplink"; value = pos 10 }
    ∷ record { uid = 8; username = "d>>>traffic>>>uplink"; value = pos 5 }
    ∷ record { uid = 7; username = "a.b>>>c>>>traffic>>>downlink"; value = pos 20 }
    ∷ []

usages_from-as_stat_example : usage_of 7 (usages_from [] (map as_stat traffic)) ≡ 30
unfolding total
usages_from-as_stat_example =
    usages_from-as_stat traffic 7 (omega arith, (omega arith, (omega arith, tt)))

abbrev exists_error : RpcError
exists_error = record { code = 2; message = "User 7.u already exists."; text = "" }

abbrev missing_error : RpcError
missing_error = record { code = 2; message = "User 7.u not found."; text = "" }

exists_error_is_fine : is_already_exists_error exists_error ≡ true
unfolding is_already_exists_error
exists_error_is_fine = refl

missing_error_is_fine : is_user_not_found_error missing_error ≡ true
unfolding is_user_not_found_error
missing_error_is_fine = refl

abbrev Emails : Type 0
Emails = String → String → Bool

abbrev answer_of : Emails → String → Operation → Option RpcError × Emails
answer_of has tag (add_user_operation email account) =
    (some exists_error, λ t e. (tag == t && email == e) || has t e)
answer_of has tag (remove_user_operation email) =
    (some missing_error, λ t e. not (tag == t && email == e) && has t e)

-- An xray that keeps the emails, and reports each operation as one that was not to do.
abbrev xray : Xray
xray = record {
  World = Emails;
  acquire = λ w. (none, w);
  dial = λ w. (none, w);
  alter_inbound = answer_of;
  query_stats = λ w pattern reset. (inr [], w);
  get_sys_stats = λ w. (none, w);
}

abbrev served : Served xray
served = record {
  has = λ w. w;
  acquire = λ w. (refl, refl);
  dial = λ w. (refl, refl);
  add = λ w tag email account. (exists_error_is_fine, λ t e. refl);
  remove = λ w tag email. (missing_error_is_fine, λ t e. refl);
}

abbrev nobody : Emails
nobody t e = false

abbrev zeros : ℕ → List ℕ
zeros zero = []
zeros (suc n) = 0 ∷ zeros n

all_zeros : (n : ℕ) → AllBytes (zeros n)
all_zeros zero = tt
all_zeros (suc n) = (omega arith, all_zeros n)

ensure_base64_password-IsKey_example :
    IsKey
      (key_size "2022-blake3-aes-128-gcm")
      (ensure_base64_password (λ text. zeros 32) "secret" "2022-blake3-aes-128-gcm")
unfolding contains_text
ensure_base64_password-IsKey_example =
    ensure_base64_password-IsKey (λ text. zeros 32) (λ text. (all_zeros 32, refl)) "secret"
      "2022-blake3-aes-128-gcm" refl
