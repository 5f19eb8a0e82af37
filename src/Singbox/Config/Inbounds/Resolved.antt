-- ===== src/Singbox/Config/Inbounds/Resolved.antt =====
-- internal/backend/singbox/config.go, resolveInbounds: what holds of every inbound that is offered, and
-- what applyAPI leaves of the configuration.
use nde.Prelude.{String, false, ◌==◌, ◌≡◌, refl, text_key, List, [], ◌∷◌, contains}
use nde.Models.{ℤ, str, Items, nil, cons, Fields}
use nde.Models.Objects.{field_at, field_at-set_field, to_items, to_map, to_int}
use nde.Models.Named.{
  Same, same, Same-trans, Same-if, Same-set_field, MaybeOffered, AllOffered, accepted, kept_or_left,
}
use nde.Singbox.Config.{to_string}
use nde.Singbox.Config.Inbounds.{
  apply_api, is_allowed, first_settings, set_text, with_short_id, with_reality, with_tls, with_path,
  with_transport, with_protocol, resolved, resolve_one, resolve_items, resolve_inbounds,
  to_string_slice,
}

set_text-Same :
    (key text : String) {a b : Fields}
    → contains key ("tag" ∷ "protocol" ∷ []) ≡ false
    → Same a b
    → Same (set_text key text a) b
unfolding set_text
set_text-Same key text other kept = Same-if _ kept (Same-set_field key (str text) other kept)

with_short_id-Same :
    (ids : List String) (settings : Fields) → Same (with_short_id ids settings) settings
unfolding with_short_id contains
with_short_id-Same [] settings = same
with_short_id-Same (sid ∷ rest) settings = Same-set_field "sid" (str sid) refl same

with_reality-Same :
    (public_key : String → String) (reality settings : Fields)
    → Same (with_reality public_key reality settings) settings
unfolding with_reality contains
with_reality-Same public_key reality settings =
    Same-trans (with_short_id-Same (to_string_slice (field_at "short_id" reality)) _)
      (set_text-Same "pbk" _ refl (Same-set_field "tls" (str "reality") refl same))

with_tls-Same :
    (public_key : String → String) (tls_cfg settings : Fields)
    → Same (with_tls public_key tls_cfg settings) settings
unfolding with_tls contains
with_tls-Same public_key tls_cfg settings =
    let plain = Same-set_field "tls" (str "tls") {a = settings} refl same in
    let named = Same-if _ plain (Same-set_field "sni" _ refl plain) in
    Same-if _
      (Same-if _
        (Same-trans (with_reality-Same public_key (to_map (field_at "reality" tls_cfg)) _) named)
        named)
      same

with_path-Same :
    (key : String) (transport : Fields) {a b : Fields}
    → Same a b
    → Same (with_path key transport a) b
unfolding with_path contains
with_path-Same key transport kept = Same-set_field "path" _ refl kept

with_transport-Same :
    (transport settings : Fields) → Same (with_transport transport settings) settings
unfolding with_transport contains
with_transport-Same transport settings =
    let named =
      set_text-Same "network" (to_string (field_at "type" transport)) {a = settings} refl same in
    Same-if _ (with_path-Same "path" transport named) (
      Same-if _
        (Same-set_field "host" _ refl (
          Same-set_field "header_type" _ refl
            (Same-set_field "network" _ refl (with_path-Same "path" transport named))))
        (Same-if _ (with_path-Same "service_name" transport named) named))

with_protocol-Same :
    (protocol : String) (inb settings : Fields)
    → Same (with_protocol protocol inb settings) settings
unfolding with_protocol contains
with_protocol-Same protocol inb settings =
    Same-if _ (Same-set_field "shadowtls_version" _ refl same)
      (Same-if _ (Same-set_field "path" _ refl (Same-set_field "header_type" _ refl same)) same)

resolved-Same :
    (public_key : String → String) (protocol tag : String) (inb : Fields)
    → Same
        (resolved public_key protocol tag inb).config
        (first_settings tag protocol (to_int (field_at "listen_port" inb)))
unfolding resolved
resolved-Same public_key protocol tag inb = Same-trans (with_protocol-Same protocol inb _) (
    Same-trans (with_transport-Same (to_map (field_at "transport" inb)) _)
      (with_tls-Same public_key (to_map (field_at "tls" inb)) _))

resolve_one-MaybeOffered :
    (public_key : String → String) (inb : Fields)
    → MaybeOffered is_allowed (resolve_one public_key inb)
unfolding resolve_one first_settings resolved field_at
resolve_one-MaybeOffered public_key inb =
    let protocol = to_string (field_at "type" inb) in
    let tag = to_string (field_at "tag" inb) in
    let kept = resolved-Same public_key protocol tag inb in
    accepted is_allowed (is_allowed protocol) (tag == "") (resolved public_key protocol tag inb)
      (λ allowed named. (named, (allowed, (kept.same_tag, kept.same_protocol))))

items-AllOffered :
    (public_key : String → String) (items : Items)
    → AllOffered is_allowed (resolve_items public_key items)
unfolding resolve_items
items-AllOffered public_key nil = tt
items-AllOffered public_key (cons item rest) =
    kept_or_left is_allowed (resolve_one public_key (to_map item)) (resolve_items public_key rest)
      (resolve_one-MaybeOffered public_key (to_map item)) (items-AllOffered public_key rest)

-- Whatever the configuration says, every inbound that sing-box offers has a tag, one of the seven
-- protocols, and settings whose tag and protocol are those of the inbound.
pub offered-AllOffered :
    (public_key : String → String) (cfg : Fields)
    → AllOffered is_allowed (resolve_inbounds public_key cfg)
unfolding resolve_inbounds
offered-AllOffered public_key cfg = items-AllOffered public_key (to_items (field_at "inbounds" cfg))

-- applyAPI changes nothing beside the experimental settings, and of those only the API's: so the
-- inbounds that are resolved are the operator's.
pub resolve_inbounds-apply_api :
    (public_key : String → String) (port : ℤ) (cfg : Fields)
    → (resolve_inbounds public_key (apply_api port cfg) ≡ resolve_inbounds public_key cfg)
      × ((k : String)
          → ("experimental" == k) ≡ false
          → field_at k (apply_api port cfg) ≡ field_at k cfg)
      × ((k : String)
          → ("v2ray_api" == k) ≡ false
          → field_at k (to_map (field_at "experimental" (apply_api port cfg)))
            ≡ field_at k (to_map (field_at "experimental" cfg)))
unfolding resolve_inbounds apply_api to_map
resolve_inbounds-apply_api public_key port cfg = (
  simp field_at-set_field,
  λ k other. rw (field_at-set_field "experimental" k _ cfg, other) refl,
  λ k other.
      rw
        (
          field_at-set_field "experimental" "experimental" _ cfg,
          field_at-set_field "v2ray_api" k _ (to_map (field_at "experimental" cfg)),
          other,
        )
        refl,
)
