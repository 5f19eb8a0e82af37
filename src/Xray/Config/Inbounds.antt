-- ===== src/Xray/Config/Inbounds.antt =====
-- internal/backend/xray/config.go, resolveInbounds: the inbounds that the panel can use.

use nde.Prelude.{
  String, Bool, false, ◌&&◌, ◌||◌, Option, none, some, List, [], ◌∷◌, ◌==◌, text_key, if◌then◌else◌,
  is_empty,
}
use nde.Prelude.Dict.{Dict, get}
use nde.Models.{
  ℤ, Any, null, bool, int, str, strs, slice, obj, Items, nil, cons, Fields, end, field, Inbound,
}
use nde.Models.Objects.{field_at, has_field, set_field, to_map, to_items, to_int}
use nde.Text.{to_lower, ◌then_text◌}

abbrev pub transport_map : Dict String String
transport_map =
    ("tcp", "tcp")
    ∷ ("raw", "tcp")
    ∷ ("splithttp", "splithttp")
    ∷ ("xhttp", "splithttp")
    ∷ ("grpc", "grpc")
    ∷ ("kcp", "kcp")
    ∷ ("mkcp", "kcp")
    ∷ ("h2", "http")
    ∷ ("h3", "http")
    ∷ ("http", "http")
    ∷ ("ws", "ws")
    ∷ ("websocket", "ws")
    ∷ ("httpupgrade", "httpupgrade")
    ∷ ("quic", "quic")
    ∷ []

-- `toString`: no value of a configuration is a fmt.Stringer.
unfoldable pub to_string : Any → String
to_string (str s) = s
to_string _ = ""

unfoldable pub strings_of : Items → List String
unfolding to_string
strings_of nil = []
strings_of (cons v rest) =
    let later = strings_of rest in if to_string v == "" then later else to_string v ∷ later

unfoldable pub to_string_slice : Any → List String
unfolding strings_of
to_string_slice (slice items) = strings_of items
to_string_slice (strs xs) = xs
to_string_slice _ = []

abbrev first_text : List String → String → String
first_text [] fallback = fallback
first_text (x ∷ xs) fallback = x

unfoldable pub is_allowed : String → Bool
is_allowed protocol =
    protocol == "vmess"
    || protocol == "trojan"
    || protocol == "vless"
    || protocol == "shadowsocks"
    || protocol == "shadowsocks2022"

-- `settings`, as it is made.
unfoldable pub first_settings : String → String → ℤ → Fields
first_settings tag protocol port = field "tag" (str tag) (
    field "protocol" (str protocol) (
      field "port" (int port) (
        field "network" (str "tcp") (
          field "tls" (str "none") (
            field "sni" (strs []) (
              field "host" (strs []) (
                field "path" null
                  (field "header_type" null (field "flow" null (field "method" null end))))))))))

unfoldable pub with_transport : String → Fields → Fields
unfolding set_field get
with_transport net_name settings = elim (get net_name transport_map) [
  | none ↦ settings
  | some mapped ↦ set_field "network" (str mapped) settings
]

-- `public_key` is what getX25519PublicKey reads from a run of xray, none for an error.
unfoldable pub with_public_key : (String → Option String) → String → Fields → Fields
unfolding set_field
with_public_key public_key private_key settings =
    let with_key : Fields = elim (public_key private_key) [
      | none ↦ settings
      | some pub_key ↦ set_field "pbk" (str pub_key) settings
    ] in
    if private_key == "" then settings else with_key

-- The case "reality" of the switch on `security`.
unfoldable pub with_reality : (String → Option String) → String → String → Fields → Fields → Fields
unfolding set_field field_at to_string_slice to_string with_public_key
with_reality public_key reality_flow protocol tls_settings settings =
    let s1 =
      set_field "sni" (strs (to_string_slice (field_at "serverNames" tls_settings)))
        (set_field "fp" (str "chrome") (set_field "tls" (str "reality") settings)) in
    let s2 =
      if protocol == "vless" && to_string (field_at "network" s1) == "tcp"
      then set_field "flow" (str reality_flow) s1
      else s1 in
    let s3 = with_public_key public_key (to_string (field_at "privateKey" tls_settings)) s2 in
    let short_ids = to_string_slice (field_at "shortIds" tls_settings) in
    set_field "sid" (str (first_text short_ids "")) s3

unfoldable pub with_security :
    (String → Option String) → String → String → String → Fields → Fields → Fields
unfolding with_reality set_field
with_security public_key reality_flow protocol security tls_settings settings =
    if security == "tls"
    then set_field "tls" (str "tls") settings
    else if security == "reality"
    then with_reality public_key reality_flow protocol tls_settings settings
    else settings

-- The switch on `netName`.
unfoldable pub with_tcp : Fields → Fields → Fields
unfolding set_field field_at to_string_slice to_string to_map
with_tcp net settings =
    let header = to_map (field_at "header" net) in
    let request = to_map (field_at "request" header) in
    let path = to_string_slice (field_at "path" request) in
    let s1 = set_field "header_type" (str (to_string (field_at "type" header))) settings in
    let s2 = if is_empty path then s1 else set_field "path" (str (first_text path "")) s1 in
    set_field "host"
      (strs (to_string_slice (field_at "Host" (to_map (field_at "headers" request))))) s2

unfoldable pub with_path_host : Fields → Fields → Fields
unfolding set_field field_at to_string_slice to_string
with_path_host net settings =
    set_field "host" (strs (to_string_slice (field_at "host" net)))
      (set_field "path" (str (to_string (field_at "path" net))) settings)

unfoldable pub with_grpc : Fields → Fields → Fields
unfolding set_field field_at to_string has_field
with_grpc net settings =
    let s1 = set_field "path" (str (to_string (field_at "serviceName" net))) settings in
    if has_field "multiMode" net
    then set_field "multiMode" (field_at "multiMode" net) s1
    else set_field "multiMode" (bool false) s1

unfoldable pub with_header : String → Fields → Fields → Fields
unfolding set_field field_at to_string to_map
with_header path_key net settings =
    set_field "header_type" (str (to_string (field_at "type" (to_map (field_at "header" net)))))
      (set_field "path" (str (to_string (field_at path_key net))) settings)

unfoldable pub with_quic : Fields → Fields → Fields
unfolding set_field field_at to_string with_header
with_quic net settings =
    with_header "key" net
      (set_field "host" (strs (to_string (field_at "security" net) ∷ [])) settings)

unfoldable pub with_network : String → Fields → Fields → Fields
unfolding with_tcp with_path_host with_grpc with_header with_quic
with_network net_name net settings =
    if net_name == "tcp" || net_name == "raw"
    then with_tcp net settings
    else if net_name == "ws"
        || net_name == "websocket"
        || net_name == "httpupgrade"
        || net_name == "splithttp"
        || net_name == "xhttp"
    then with_path_host net settings
    else if net_name == "grpc"
    then with_grpc net settings
    else if net_name == "kcp" || net_name == "mkcp"
    then with_header "seed" net settings
    else if net_name == "quic"
    then with_quic net settings
    else if net_name == "http"
    then with_path_host net settings
    else settings

unfoldable pub method_of : Fields → String
unfolding field_at to_string to_map to_items to_lower
method_of ss_settings =
    let method = to_lower (to_string (field_at "method" ss_settings)) in
    let of_client : String = elim (to_items (field_at "clients" ss_settings)) [
      | nil ↦ method
      | cons client rest ↦ to_lower (to_string (field_at "method" (to_map client)))
    ] in
    if method == "" then of_client else method

unfoldable pub with_method : String → Fields → Fields → Fields
unfolding method_of set_field
with_method protocol ss_settings settings =
    let method = method_of ss_settings in
    let s1 = if method == "" then settings else set_field "method" (str method) settings in
    if protocol == "shadowsocks" || protocol == "shadowsocks2022"
    then set_field "network" null s1
    else settings

-- What is made of an inbound whose protocol and tag are accepted.
unfoldable pub resolved : (String → Option String) → String → String → String → Fields → Inbound
unfolding first_settings with_transport with_security with_network with_method to_map to_string
    field_at to_int to_lower ◌then_text◌
resolved public_key reality_flow protocol tag inb =
    let stream = to_map (field_at "streamSettings" inb) in
    let net_name = to_lower (to_string (field_at "network" stream)) in
    let security = to_lower (to_string (field_at "security" stream)) in
    let tls_settings = to_map (field_at (security then_text "Settings") stream) in
    let net_settings = to_map (field_at (net_name then_text "Settings") stream) in
    let s1 = with_transport net_name (first_settings tag protocol (to_int (field_at "port" inb))) in
    let s2 = with_security public_key reality_flow protocol security tls_settings s1 in
    let s3 = with_network net_name net_settings s2 in
    record {
      tag = tag;
      protocol = protocol;
      config = with_method protocol (to_map (field_at "settings" inb)) s3;
    }

-- One turn of the loop: nothing where it continues.
unfoldable pub resolve_one : (String → Option String) → String → Any → Option Inbound
unfolding resolved is_allowed to_string to_lower field_at
resolve_one public_key reality_flow (obj inb) =
    let protocol = to_lower (to_string (field_at "protocol" inb)) in
    let tag = to_string (field_at "tag" inb) in
    if is_allowed protocol
    then if tag == "" then none else some (resolved public_key reality_flow protocol tag inb)
    else none
resolve_one public_key reality_flow _ = none

unfoldable pub resolve_items : (String → Option String) → String → Items → List Inbound
unfolding resolve_one
resolve_items public_key reality_flow nil = []
resolve_items public_key reality_flow (cons item rest) =
    let later = resolve_items public_key reality_flow rest in
    elim (resolve_one public_key reality_flow item) [ none ↦ later | some inb ↦ inb ∷ later ]

-- `resolveInbounds`
unfoldable pub resolve_inbounds : (String → Option String) → String → Fields → List Inbound
unfolding resolve_items field_at to_items
resolve_inbounds public_key reality_flow cfg =
    resolve_items public_key reality_flow (to_items (field_at "inbounds" cfg))
