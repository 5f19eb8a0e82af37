-- ===== src/Singbox/Config/Inbounds.antt =====
-- internal/backend/singbox/config.go, applyAPI and resolveInbounds: the statistics that sing-box serves,
-- and the inbounds that the panel can use.
pub mod Resolved
use nde.Prelude.{
  String, Bool, true, false, ◌||◌, Option, none, some, List, [], ◌∷◌, ◌==◌, text_key, if◌then◌else◌,
  is_empty,
}
use nde.Models.{
  ℤ, Any, null, bool, int, str, strs, slice, obj, Items, nil, cons, Fields, end, field, Inbound,
}
use nde.Models.Objects.{field_at, set_field, to_map, to_items, to_int}
use nde.Text.{to_lower, ◌then_text◌}
use nde.Singbox.Config.{to_string}
use nde.Text.Integer.{itoa}

-- `applyAPI`, which writes the operator's map.
unfoldable pub apply_api : ℤ → Fields → Fields
unfolding field_at set_field to_map itoa ◌then_text◌
apply_api api_port cfg =
    let api : Fields =
      field "listen" (str ("127.0.0.1:" then_text itoa api_port))
        (field "stats" (obj (field "enabled" (bool true) (field "users" (strs []) end))) end) in
    set_field "experimental"
      (obj (set_field "v2ray_api" (obj api) (to_map (field_at "experimental" cfg)))) cfg

unfoldable pub to_bool : Any → Bool
unfolding to_lower
to_bool (bool b) = b
to_bool (str s) = to_lower s == "true" || s == "1"
to_bool _ = false

unfoldable pub strings_of : Items → List String
unfolding to_string
strings_of nil = []
strings_of (cons v rest) =
    let later = strings_of rest in if to_string v == "" then later else to_string v ∷ later

unfoldable pub to_string_slice : Any → List String
unfolding strings_of
to_string_slice (strs xs) = xs
to_string_slice (slice items) = strings_of items
to_string_slice _ = []

unfoldable pub is_allowed : String → Bool
is_allowed protocol =
    protocol == "shadowsocks"
    || protocol == "vmess"
    || protocol == "trojan"
    || protocol == "vless"
    || protocol == "hysteria2"
    || protocol == "tuic"
    || protocol == "shadowtls"

-- `settings`, as it is made.
unfoldable pub first_settings : String → String → ℤ → Fields
first_settings tag protocol port = field "tag" (str tag) (
    field "protocol" (str protocol) (
      field "port" (int port) (
        field "network" null (
          field "tls" (str "none") (
            field "sni" (strs []) (
              field "host" (strs [])
                (field "path" null (field "header_type" null (field "flow" null end)))))))))

-- A setting that an empty text leaves as it is.
unfoldable pub set_text : String → String → Fields → Fields
unfolding set_field
set_text key text settings = if text == "" then settings else set_field key (str text) settings

unfoldable pub with_short_id : List String → Fields → Fields
unfolding set_field
with_short_id [] settings = settings
with_short_id (sid ∷ rest) settings = set_field "sid" (str sid) settings

-- `public_key` is getX25519 for a key that is not empty: what it reads from a run of xray, the empty
-- text for an error or where no xray is set up.
unfoldable pub with_reality : (String → String) → Fields → Fields → Fields
unfolding set_field set_text with_short_id field_at to_string to_string_slice
with_reality public_key reality settings =
    let private_key = to_string (field_at "private_key" reality) in
    let key = if private_key == "" then "" else public_key private_key in
    with_short_id (to_string_slice (field_at "short_id" reality))
      (set_text "pbk" key (set_field "tls" (str "reality") settings))

unfoldable pub with_tls : (String → String) → Fields → Fields → Fields
unfolding set_field field_at to_string to_bool to_map with_reality
with_tls public_key tls_cfg settings =
    let sni = to_string (field_at "server_name" tls_cfg) in
    let s1 = set_field "tls" (str "tls") settings in
    let s2 = if sni == "" then s1 else set_field "sni" (strs (sni ∷ [])) s1 in
    let reality = to_map (field_at "reality" tls_cfg) in
    let s3 =
      if to_bool (field_at "enabled" reality) then with_reality public_key reality s2 else s2 in
    if to_bool (field_at "enabled" tls_cfg) then s3 else settings

unfoldable pub with_path : String → Fields → Fields → Fields
unfolding set_field field_at to_string
with_path key transport settings =
    set_field "path" (str (to_string (field_at key transport))) settings

-- The switch on the transport's type.
unfoldable pub with_transport : Fields → Fields → Fields
unfolding set_field set_text field_at to_string to_string_slice with_path
with_transport transport settings =
    let network = to_string (field_at "type" transport) in
    let s1 = set_text "network" network settings in
    if network == "ws" || network == "httpupgrade"
    then with_path "path" transport s1
    else if network == "http"
    then set_field "host" (strs (to_string_slice (field_at "host" transport))) (
        set_field "header_type" (str "http")
          (set_field "network" (str "tcp") (with_path "path" transport s1)))
    else if network == "grpc"
    then with_path "service_name" transport s1
    else s1

unfoldable pub with_protocol : String → Fields → Fields → Fields
unfolding set_field field_at to_string to_map
with_protocol protocol inb settings =
    let obfs = to_map (field_at "obfs" inb) in
    if protocol == "shadowtls"
    then set_field "shadowtls_version" (str (to_string (field_at "version" inb))) settings
    else if protocol == "hysteria2"
    then set_field "path" (str (to_string (field_at "password" obfs)))
        (set_field "header_type" (str (to_string (field_at "type" obfs))) settings)
    else settings

unfoldable pub resolved : (String → String) → String → String → Fields → Inbound
unfolding first_settings with_tls with_transport with_protocol to_map field_at to_int
resolved public_key protocol tag inb =
    let s1 = first_settings tag protocol (to_int (field_at "listen_port" inb)) in
    let s2 = with_tls public_key (to_map (field_at "tls" inb)) s1 in
    let s3 = with_transport (to_map (field_at "transport" inb)) s2 in
    record { tag = tag; protocol = protocol; config = with_protocol protocol inb s3 }

-- One turn of the loop: nothing where it continues.
unfoldable pub resolve_one : (String → String) → Fields → Option Inbound
unfolding resolved is_allowed to_string field_at
resolve_one public_key inb =
    let protocol = to_string (field_at "type" inb) in
    let tag = to_string (field_at "tag" inb) in
    if is_allowed protocol
    then if tag == "" then none else some (resolved public_key protocol tag inb)
    else none

unfoldable pub resolve_items : (String → String) → Items → List Inbound
unfolding resolve_one to_map
resolve_items public_key nil = []
resolve_items public_key (cons item rest) =
    let later = resolve_items public_key rest in
    elim (resolve_one public_key (to_map item)) [ none ↦ later | some inb ↦ inb ∷ later ]

-- `resolveInbounds`
unfoldable pub resolve_inbounds : (String → String) → Fields → List Inbound
unfolding resolve_items field_at to_items
resolve_inbounds public_key cfg = resolve_items public_key (to_items (field_at "inbounds" cfg))
