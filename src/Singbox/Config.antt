-- ===== src/Singbox/Config.antt =====
-- internal/backend/singbox/config.go: the accounts of users in a configuration.
pub mod Accounts
pub mod Undo
pub mod Inbounds
mod Tests
use nde.Prelude.{
  String, Bool, true, false, ◌||◌, ◌⊎◌, inl, inr, Option, none, some, ◌==◌, text_key, if◌then◌else◌,
}
use nde.Models.{
  Any, null, bool, int, float, str, strs, slice, obj, Items, nil, cons, Fields, end, field, User,
  Inbound,
}
use nde.Models.Objects.{field_at, set_field, to_map, to_items, append_items}
use nde.Backend.{Error}
use nde.Auth.{Packages, AuthAlgorithm, generate_uuid, generate_password, user_identifier}
use nde.Text.Integer.{itoa}

unfoldable pub to_string : Any → String
unfolding itoa
to_string (str s) = s
to_string (int n) = itoa n
to_string _ = ""

unfoldable pub has_tag : String → Any → Bool
unfolding to_string to_map field_at
has_tag tag item = to_string (field_at "tag" (to_map item)) == tag

-- An account that RemoveUser takes out.
unfoldable pub is_named : String → Any → Bool
unfolding to_string to_map field_at
is_named identifier u =
    to_string (field_at "name" (to_map u)) == identifier
    || to_string (field_at "username" (to_map u)) == identifier

unfoldable pub users_of : Any → Items
unfolding to_items to_map field_at
users_of item = to_items (field_at "users" (to_map item))

-- `inb["users"] = …` on `toMap(item)`: an item that is no map stays as it is.
unfoldable pub with_users : Any → Items → Any
unfolding set_field
with_users (obj fields) users = obj (set_field "users" (slice users) fields)
with_users item users = item

-- The loop up to its `break`: the first inbound with the tag gets other users.
unfoldable pub change_users : String → (Items → Items) → Items → Items
unfolding has_tag users_of with_users
change_users tag change nil = nil
change_users tag change (cons item rest) =
    let later = change_users tag change rest in
    if has_tag tag item
    then cons (with_users item (change (users_of item))) rest
    else cons item later

unfoldable pub has_inbound : String → Items → Bool
unfolding has_tag
has_inbound tag nil = false
has_inbound tag (cons item rest) = has_tag tag item || has_inbound tag rest

-- The inbounds are changed in place, where they are a []any.
unfoldable pub put_items : Any → (Items → Items) → Fields → Fields
unfolding set_field
put_items (slice items) change raw = set_field "inbounds" (slice (change items)) raw
put_items _ change raw = raw

unfoldable pub change_inbounds : (Items → Items) → Fields → Fields
unfolding put_items field_at
change_inbounds change raw = put_items (field_at "inbounds" raw) change raw

unfoldable pub without_named : String → Items → Items
unfolding is_named
without_named identifier nil = nil
without_named identifier (cons u rest) =
    let later = without_named identifier rest in
    if is_named identifier u then later else cons u later

unfoldable pub remove_user : Fields → User → Inbound → Fields
unfolding change_inbounds change_users without_named user_identifier
remove_user raw user inbound =
    change_inbounds
      (change_users inbound.tag (without_named (user_identifier user.id user.username))) raw

unfoldable pub listed : String → Items → Bool
unfolding to_string
listed identifier nil = false
listed identifier (cons item rest) = to_string item == identifier || listed identifier rest

-- The list of users whose traffic the proxy counts.
unfoldable pub count_traffic : String → Fields → Fields
unfolding field_at set_field to_map to_items append_items listed
count_traffic identifier raw =
    let exp = to_map (field_at "experimental" raw) in
    let v2api = to_map (field_at "v2ray_api" exp) in
    let stats = to_map (field_at "stats" v2api) in
    let user_list = to_items (field_at "users" stats) in
    let stats' =
      set_field "users" (slice (append_items user_list (cons (str identifier) nil))) stats in
    let exp' = set_field "v2ray_api" (obj (set_field "stats" (obj stats') v2api)) exp in
    if listed identifier user_list
    then set_field "experimental" (obj exp) raw
    else set_field "experimental" (obj exp') raw

module _ (P : Packages Error) (algo : AuthAlgorithm) where
  -- The protocols that carry a UUID.
  unfoldable pub build_account : String → String → String → String → Error ⊎ Fields
  unfolding generate_uuid generate_password
  build_account identifier seed protocol flow =
      let named : String → Fields → Fields = λ key rest. field key (str identifier) rest in
      let password : Fields = field "password" (str (generate_password P seed algo)) end in
      let with_uuid : (Fields → Fields) → Error ⊎ Fields = λ rest.
        elim (generate_uuid P seed algo) [
          | inl e ↦ inl e
          | inr u ↦ inr (named "name" (field "uuid" (str u) (rest end)))
        ] in
      if protocol == "vmess"
      then with_uuid (λ rest. rest)
      else if protocol == "vless"
      then with_uuid (λ rest. field "flow" (str flow) rest)
      else if protocol == "tuic"
      then with_uuid (λ rest. password)
      else if protocol == "naive"
          || protocol == "socks"
          || protocol == "mixed"
          || protocol == "http"
      then inr (named "username" password)
      else inr (named "name" password)

  unfoldable pub append_user : Fields → User → Inbound → Option Error × Fields
  unfolding build_account change_inbounds change_users has_inbound count_traffic field_at to_items
      append_items to_string user_identifier
  append_user raw user inbound =
      let identifier = user_identifier user.id user.username in
      let flow = to_string (field_at "flow" inbound.config) in
      if has_inbound inbound.tag (to_items (field_at "inbounds" raw))
      then elim (build_account identifier user.key inbound.protocol flow) [
        | inl e ↦ (some e, raw)
        | inr account ↦ (
          none,
          count_traffic identifier (
              change_inbounds
                (change_users inbound.tag (λ users. append_items users (cons (obj account) nil)))
                raw),
        )
      ]
      else (none, count_traffic identifier raw)
