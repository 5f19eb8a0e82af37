-- ===== src/Logutil/Hidden.antt =====
-- internal/logutil: what a line does not tell.
use nde.Prelude.{
  String, [], Bool, true, false, ◌&&◌, ◌==◌, ◌≡◌, refl, arith, ap, ◌∙◌, sym, text_key,
  if◌then◌else◌, Bool-cases, inl, inr, ==_iff,
}
use nde.Logutil.{redacted_value, is_sensitive_key, sanitize_value_by_key}
use nde.Logutil.Pretty.{
  Scalar, string, Attr, leaf, group, Attrs, nil, cons, Collected, full_key, group_key, is_null,
  collect_leaf, collect_attr, collect_attrs, PrettyHandler, LogRecord, group_prefix, collected,
  line_of, handle,
}

-- A value without its content, where its key is secret.
mask_leaf : Bool → Scalar → Scalar
mask_leaf secret value = if secret then string redacted_value else value

-- The attributes with every value masked whose key, qualified by its groups, is secret.
unfoldable mutual
  unfolding mask_leaf full_key group_key

  pub mask_attr : String → Attr → Attr
  mask_attr prefix (leaf key value) =
      leaf key (mask_leaf (is_sensitive_key (full_key prefix key)) value)
  mask_attr prefix (group key attrs) = group key (mask (group_key prefix key) attrs)

  pub mask : String → Attrs → Attrs
  mask prefix nil = nil
  mask prefix (cons a rest) = cons (mask_attr prefix a) (mask prefix rest)

component_open : (key : String) → is_sensitive_key key ≡ true → (key == "component") ≡ false
component_open key secret = elim (Bool-cases (key == "component")) [
  | inr off ↦ off
  | inl on ↦
      let it : is_sensitive_key "component" ≡ true =
        ap is_sensitive_key (sym ((==_iff key "component").0 on)) ∙ secret in
      absurd (unfold is_sensitive_key in cc)
]

collect_leaf-mask :
    (c : Collected) (key : String) (value : Scalar)
    → collect_leaf c key (mask_leaf (is_sensitive_key key) value) ≡ collect_leaf c key value
unfolding collect_leaf mask_leaf
collect_leaf-mask c key value = elim (Bool-cases (is_sensitive_key key)) [
  | inl secret ↦ rw (secret, component_open key secret, sanitize_value_by_key) refl
  | inr open' ↦ rw open' refl
]

full_key-empty : (prefix key : String) → (key == "") ≡ true → full_key prefix key ≡ ""
unfolding full_key
full_key-empty prefix key empty = ground (arith, empty, ==_iff key "")

either_same :
    (c : Collected) (b : Bool) (key : String) (masked value : Scalar)
    → (b ≡ true → masked ≡ value)
    → collect_leaf c key masked ≡ collect_leaf c key value
    → (if b && is_null masked then c else collect_leaf c key masked)
      ≡ (if b && is_null value then c else collect_leaf c key value)
either_same c true key masked value same collected =
    ap (λ v. if is_null v then c else collect_leaf c key v) (same refl)
either_same c false key masked value same collected = collected

collect_attr-mask_leaf :
    (c : Collected) (prefix key : String) (value : Scalar)
    → collect_attr c prefix (mask_attr prefix (leaf key value))
      ≡ collect_attr c prefix (leaf key value)
unfolding collect_attr mask_attr
collect_attr-mask_leaf c prefix key value =
    let full = full_key prefix key in
    either_same c (key == "") full (mask_leaf (is_sensitive_key full) value) value
      (λ empty.
        ap (λ k. mask_leaf (is_sensitive_key k) value) (full_key-empty prefix key empty)
        ∙ unfold is_sensitive_key mask_leaf in refl)
      (collect_leaf-mask c full value)

mutual
  unfolding collect_attr collect_attrs mask_attr mask

  collect_attr-mask :
      (a : Attr) (c : Collected) (prefix : String)
      → collect_attr c prefix (mask_attr prefix a) ≡ collect_attr c prefix a
  collect_attr-mask (leaf key value) c prefix = collect_attr-mask_leaf c prefix key value
  collect_attr-mask (group key attrs) c prefix = collect_attrs-mask attrs c (group_key prefix key)

  collect_attrs-mask :
      (attrs : Attrs) (c : Collected) (prefix : String)
      → collect_attrs c prefix (mask prefix attrs) ≡ collect_attrs c prefix attrs
  collect_attrs-mask nil c prefix = refl
  collect_attrs-mask (cons a rest) c prefix =
      ap (λ d. collect_attrs d prefix (mask prefix rest)) (collect_attr-mask a c prefix)
      ∙ collect_attrs-mask rest (collect_attr c prefix a) prefix

-- Attributes that differ in secret values only are collected alike.
collect_attrs-same :
    (attrs own : Attrs) (c : Collected) (prefix : String)
    → mask prefix own ≡ mask prefix attrs
    → collect_attrs c prefix own ≡ collect_attrs c prefix attrs
collect_attrs-same attrs own c prefix same =
    sym (collect_attrs-mask own c prefix)
    ∙ ap (collect_attrs c prefix) same
    ∙ collect_attrs-mask attrs c prefix

-- Two lines are the same where the attributes of the handler and of the record differ only in values
-- whose keys, qualified by the groups, are secret: a line tells nothing of such a value.
pub handle_hides :
    (h : PrettyHandler) (r : LogRecord) (own attrs : Attrs)
    → mask (group_prefix h) own ≡ mask (group_prefix h) h.attrs
    → mask (group_prefix h) attrs ≡ mask (group_prefix h) r.attrs
    → handle (record h { attrs = own }) (record r { attrs = attrs }) ≡ handle h r
unfolding handle collected group_prefix line_of
handle_hides h r own attrs same_own same =
    let start : Collected = record { fields = []; component = "" } in
    let prefix = group_prefix h in
    ap (line_of r) (
      ap (λ c. collect_attrs c prefix attrs) (collect_attrs-same h.attrs own start prefix same_own)
      ∙ collect_attrs-same r.attrs attrs (collect_attrs start prefix h.attrs) prefix same)
