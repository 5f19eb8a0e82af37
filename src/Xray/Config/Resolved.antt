-- ===== src/Xray/Config/Resolved.antt =====
-- internal/backend/xray/config.go, resolveInbounds: what holds of every inbound that is offered.
use nde.Prelude.{String, ◌==◌, ◌≡◌, refl, text_key, Option, contains}
use nde.Models.{ℤ, Any, str, slice, obj, Items, nil, cons, Fields}
use nde.Models.Objects.{field_at, to_items, to_map}
use nde.Xray.Config.{apply_api_config}
use nde.Models.{null, bool, int, float, strs, slice}
use nde.Models.Objects.{to_int}
use nde.Prelude.Dict.{get}
use nde.Text.{to_lower, ◌then_text◌}
use nde.Models.Named.{
  Same, same, Same-trans, Same-if, Same-elim, Same-set_field, MaybeOffered, AllOffered, accepted,
  kept_or_left,
}
use nde.Xray.Config.Api.{field_at-apply_api_config_cases}
use nde.Xray.Config.Inbounds.{
  transport_map, with_public_key, is_allowed, resolve_inbounds, resolve_items, resolve_one,
  resolved, first_settings, with_transport, with_security, with_reality, with_network, with_method,
  with_path_host, with_tcp, with_grpc, with_header, with_quic, to_string,
}

with_path_host-Same : (net settings : Fields) → Same (with_path_host net settings) settings
unfolding with_path_host contains
with_path_host-Same net settings = Same-set_field "host" _ refl (Same-set_field "path" _ refl same)

with_header-Same :
    (key : String) (net settings : Fields) → Same (with_header key net settings) settings
unfolding with_header contains
with_header-Same key net settings =
    Same-set_field "header_type" _ refl (Same-set_field "path" _ refl same)

with_tcp-Same : (net settings : Fields) → Same (with_tcp net settings) settings
unfolding with_tcp contains
with_tcp-Same net settings =
    let typed = Same-set_field "header_type" _ refl same in
    Same-set_field "host" _ refl (Same-if _ typed (Same-set_field "path" _ refl typed))

with_public_key-Same :
    (public_key : String → Option String) (private_key : String) (settings : Fields)
    → Same (with_public_key public_key private_key settings) settings
unfolding with_public_key contains
with_public_key-Same public_key private_key settings =
    Same-if _ same (
      Same-elim (public_key private_key) same (λ found. Same-set_field "pbk" (str found) refl same))

with_reality-Same :
    (public_key : String → Option String) (flow protocol : String) (tls settings : Fields)
    → Same (with_reality public_key flow protocol tls settings) settings
unfolding with_reality contains
with_reality-Same public_key flow protocol tls settings =
    let named =
      Same-set_field "sni" _ refl (Same-set_field "fp" _ refl (Same-set_field "tls" _ refl same)) in
    let flowed = Same-if _ (Same-set_field "flow" _ refl named) named in
    Same-set_field "sid" _ refl (
      Same-trans (with_public_key-Same public_key (to_string (field_at "privateKey" tls)) _) flowed)

with_security-Same :
    (public_key : String → Option String) (flow protocol security : String) (tls settings : Fields)
    → Same (with_security public_key flow protocol security tls settings) settings
unfolding with_security contains
with_security-Same public_key flow protocol security tls settings =
    Same-if _ (Same-set_field "tls" _ refl same)
      (Same-if _ (with_reality-Same public_key flow protocol tls settings) same)

with_transport-Same :
    (name : String) (settings : Fields) → Same (with_transport name settings) settings
unfolding with_transport contains
with_transport-Same name settings =
    Same-elim (get name transport_map) same
      (λ mapped. Same-set_field "network" (str mapped) refl same)

with_method-Same :
    (protocol : String) (ss settings : Fields) → Same (with_method protocol ss settings) settings
unfolding with_method contains
with_method-Same protocol ss settings =
    Same-if _
      (Same-set_field "network" _ refl (Same-if _ same (Same-set_field "method" _ refl same))) same

with_grpc-Same : (net settings : Fields) → Same (with_grpc net settings) settings
unfolding with_grpc contains
with_grpc-Same net settings =
    let served = Same-set_field "path" (str (to_string (field_at "serviceName" net))) refl same in
    Same-if _ (Same-set_field "multiMode" _ refl served) (Same-set_field "multiMode" _ refl served)

with_quic-Same : (net settings : Fields) → Same (with_quic net settings) settings
unfolding with_quic contains
with_quic-Same net settings =
    Same-trans (with_header-Same "key" net _) (Same-set_field "host" _ refl same)

with_network-Same :
    (name : String) (net settings : Fields) → Same (with_network name net settings) settings
unfolding with_network
with_network-Same name net settings = Same-if _ (with_tcp-Same net settings) (
    Same-if _ (with_path_host-Same net settings) (
      Same-if _ (with_grpc-Same net settings) (
        Same-if _ (with_header-Same "seed" net settings) (
          Same-if _ (with_quic-Same net settings)
            (Same-if _ (with_path_host-Same net settings) same)))))

resolved-Same :
    (public_key : String → Option String) (flow protocol tag : String) (inb : Fields)
    → Same
        (resolved public_key flow protocol tag inb).config
        (first_settings tag protocol (to_int (field_at "port" inb)))
unfolding resolved
resolved-Same public_key flow protocol tag inb =
    let stream = to_map (field_at "streamSettings" inb) in
    let net_name = to_lower (to_string (field_at "network" stream)) in
    let security = to_lower (to_string (field_at "security" stream)) in
    Same-trans (with_method-Same protocol (to_map (field_at "settings" inb)) _) (
      Same-trans
        (with_network-Same net_name (to_map (field_at (net_name then_text "Settings") stream)) _)
        (Same-trans
          (with_security-Same public_key flow protocol security
            (to_map (field_at (security then_text "Settings") stream)) _)
          (with_transport-Same net_name _)))

resolve_one-MaybeOffered :
    (public_key : String → Option String) (flow : String) (item : Any)
    → MaybeOffered is_allowed (resolve_one public_key flow item)
unfolding resolve_one first_settings resolved field_at
resolve_one-MaybeOffered public_key flow (obj inb) =
    let protocol = to_lower (to_string (field_at "protocol" inb)) in
    let tag = to_string (field_at "tag" inb) in
    let kept = resolved-Same public_key flow protocol tag inb in
    accepted is_allowed (is_allowed protocol) (tag == "")
      (resolved public_key flow protocol tag inb)
      (λ allowed named. (named, (allowed, (kept.same_tag, kept.same_protocol))))
resolve_one-MaybeOffered public_key flow null = tt
resolve_one-MaybeOffered public_key flow (bool b) = tt
resolve_one-MaybeOffered public_key flow (int n) = tt
resolve_one-MaybeOffered public_key flow (float n) = tt
resolve_one-MaybeOffered public_key flow (str s) = tt
resolve_one-MaybeOffered public_key flow (strs s) = tt
resolve_one-MaybeOffered public_key flow (slice s) = tt

items-AllOffered :
    (public_key : String → Option String) (flow : String) (items : Items)
    → AllOffered is_allowed (resolve_items public_key flow items)
unfolding resolve_items
items-AllOffered public_key flow nil = tt
items-AllOffered public_key flow (cons item rest) =
    kept_or_left is_allowed (resolve_one public_key flow item) (resolve_items public_key flow rest)
      (resolve_one-MaybeOffered public_key flow item) (items-AllOffered public_key flow rest)

-- Whatever the configuration says, every inbound that is resolved from it has a tag, one of the
-- five protocols, and settings whose tag and protocol are those of the inbound.
pub resolve_inbounds-AllOffered :
    (public_key : String → Option String) (flow : String) (cfg : Fields)
    → AllOffered is_allowed (resolve_inbounds public_key flow cfg)
unfolding resolve_inbounds
resolve_inbounds-AllOffered public_key flow cfg =
    items-AllOffered public_key flow (to_items (field_at "inbounds" cfg))

-- The inbound that the node adds for its own calls is never offered: the same inbounds are resolved
-- from the configuration as from the operator's.
pub resolve_inbounds-apply_api_config :
    (public_key : String → Option String) (flow : String) (port : ℤ) (cfg : Fields)
    → resolve_inbounds public_key flow (apply_api_config port cfg)
      ≡ resolve_inbounds public_key flow cfg
unfolding resolve_inbounds resolve_items resolve_one to_items is_allowed to_lower to_string field_at
resolve_inbounds-apply_api_config public_key flow port cfg =
    rw (field_at-apply_api_config_cases port cfg "inbounds") refl
