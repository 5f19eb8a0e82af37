-- ===== src/Xray/Config/Api.antt =====
-- internal/backend/xray/config.go, applyAPIConfig: what the operator's configuration keeps, and what
-- it cannot turn off.
use nde.Prelude.{
  String, true, false, ◌==◌, ◌≡◌, refl, arith, text_key, if◌then◌else◌, List, [], ◌∷◌, Bool-cases,
  inl, inr, contains,
}
use nde.Models.{ℤ, Any, null, bool, int, float, str, strs, slice, obj, cons, Fields, end, field}
use nde.Models.Objects.{field_at, has_field, field_at-set_field, to_map, to_items}
use nde.Xray.Config.{
  merge_value, forced_policy, policy_forced, forced_levels, forced_flags, apply_api_config,
  api_inbound, with_rule, api_entry,
}
use nde.Xray.Config.Merge.{IsKeyed, field_at-merge_map}

missing_key : (k : String) (fields : Fields) → has_field k fields ≡ false → field_at k fields ≡ null
unfolding has_field field_at
missing_key k end e = refl
missing_key k (field j v rest) e = ground (arith, missing_key k rest)

merge_value-null : (v : Any) → merge_value v null ≡ v
unfolding merge_value
merge_value-null (obj fields) = refl
merge_value-null null = refl
merge_value-null (bool b) = refl
merge_value-null (int n) = refl
merge_value-null (float n) = refl
merge_value-null (str s) = refl
merge_value-null (strs s) = refl
merge_value-null (slice s) = refl

over_nothing :
    (over : Fields) (k : String)
    → field_at k over ≡ (if has_field k over then merge_value (field_at k over) null else null)
over_nothing over k = elim (Bool-cases (has_field k over)) [
  | inl found ↦ rw (found, merge_value-null (field_at k over)) refl
  | inr missing ↦ rw (missing, missing_key k over missing) refl
]

-- The same with any value below.
pub field_at-merge_value :
    (over : Fields) (base : Any) (k : String)
    → IsKeyed over
    → field_at k (to_map (merge_value (obj over) base)) ≡ (
        if has_field k over
        then merge_value (field_at k over) (field_at k (to_map base))
        else field_at k (to_map base))
unfolding to_map merge_value field_at
field_at-merge_value over (obj base) k keyed = field_at-merge_map base over k keyed
field_at-merge_value over null k keyed = over_nothing over k
field_at-merge_value over (bool b) k keyed = over_nothing over k
field_at-merge_value over (int n) k keyed = over_nothing over k
field_at-merge_value over (float n) k keyed = over_nothing over k
field_at-merge_value over (str s) k keyed = over_nothing over k
field_at-merge_value over (strs s) k keyed = over_nothing over k
field_at-merge_value over (slice s) k keyed = over_nothing over k

forced_policy_lem : (policy : Any) → forced_policy policy ≡ merge_value (obj policy_forced) policy
unfolding forced_policy merge_value
forced_policy_lem (obj policy) = refl
forced_policy_lem null = refl
forced_policy_lem (bool b) = refl
forced_policy_lem (int n) = refl
forced_policy_lem (float n) = refl
forced_policy_lem (str s) = refl
forced_policy_lem (strs s) = refl
forced_policy_lem (slice s) = refl

-- The value at the end of a path of keys; a value that is no map is an empty one on the way.
unfoldable pub value_at : List String → Any → Any
unfolding to_map field_at
value_at [] v = v
value_at (k ∷ ks) v = value_at ks (field_at k (to_map v))

-- Every key of the configuration that is written; all others keep their values.
pub field_at-apply_api_config_cases :
    (port : ℤ) (cfg : Fields) (k : String)
    → field_at k (apply_api_config port cfg) ≡ (
        if "routing" == k
        then with_rule (field_at "routing" cfg)
        else if "inbounds" == k
        then slice (cons (obj (api_inbound port)) (to_items (field_at "inbounds" cfg)))
        else if "policy" == k
        then forced_policy (field_at "policy" cfg)
        else if "stats" == k
        then obj end
        else if "api" == k
        then obj api_entry
        else field_at k cfg)
unfolding apply_api_config
field_at-apply_api_config_cases port cfg k = simp field_at-set_field

policy-IsKeyed : IsKeyed policy_forced
unfolding has_field
policy-IsKeyed = (refl, (refl, tt))

-- A flag of level 0 in a policy that is merged.
forced_flag :
    (policy : Any) (flag : String)
    → has_field flag forced_flags ≡ true
    → value_at ("levels" ∷ "0" ∷ flag ∷ []) (forced_policy policy)
      ≡ merge_value (field_at flag forced_flags) (value_at ("levels" ∷ "0" ∷ flag ∷ []) policy)
unfolding value_at has_field field_at
forced_flag policy flag known =
    let levels = field_at "levels" (to_map policy) in
    let level_zero = field_at "0" (to_map levels) in
    rw
      (
        forced_policy_lem policy,
        field_at-merge_value policy_forced policy "levels" policy-IsKeyed,
        field_at-merge_value forced_levels levels "0" (refl, tt),
        field_at-merge_value forced_flags level_zero flag (refl, (refl, tt)),
        known,
      )
      refl

-- The keys that applyAPIConfig writes.
abbrev pub api_keys : List String
api_keys = "api" ∷ "stats" ∷ "policy" ∷ "inbounds" ∷ "routing" ∷ []

-- Whatever the operator's configuration says of the policy, xray counts the traffic of users at
-- level 0 both ways; every setting beside the policy, the inbounds, the routing and the two API
-- entries is the operator's.
pub value_at-apply_api_config :
    (port : ℤ) (cfg : Fields)
    → (value_at
          ("policy" ∷ "levels" ∷ "0" ∷ "statsUserUplink" ∷ [])
          (obj (apply_api_config port cfg))
        ≡ bool true)
      × (value_at
            ("policy" ∷ "levels" ∷ "0" ∷ "statsUserDownlink" ∷ [])
            (obj (apply_api_config port cfg))
          ≡ bool true)
      × ((k : String)
          → contains k api_keys ≡ false
          → field_at k (apply_api_config port cfg) ≡ field_at k cfg)
unfolding value_at to_map contains has_field merge_value field_at
value_at-apply_api_config port cfg =
    let there = field_at-apply_api_config_cases port cfg "policy" in
    (
      rw there (forced_flag (field_at "policy" cfg) "statsUserUplink" refl),
      rw there (forced_flag (field_at "policy" cfg) "statsUserDownlink" refl),
      λ k other. rw (field_at-apply_api_config_cases port cfg k) (ground (arith, other)),
    )
