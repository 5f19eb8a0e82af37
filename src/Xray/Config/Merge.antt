-- ===== src/Xray/Config/Merge.antt =====
-- internal/backend/xray/config.go, mergeMap: what a merged map has under each key.
use nde.Prelude.{String, false, ◌≡◌, refl, arith, text_key, if◌then◌else◌, ==_iff}
use nde.Models.{Fields, end, field}
use nde.Models.Objects.{field_at, has_field, set_field, field_at-set_field}
use nde.Xray.Config.{merge_map, merge_value}

-- No key has two entries.
abbrev pub IsKeyed : Fields → Type 0
IsKeyed end = Unit
IsKeyed (field k v rest) = (has_field k rest ≡ false) × IsKeyed rest

-- Under a key of the second map stands its value merged over that of the first; the other keys keep
-- the values of the first.
pub field_at-merge_map :
    (base over : Fields) (k : String)
    → IsKeyed over
    → field_at k (merge_map base over) ≡ (
        if has_field k over
        then merge_value (field_at k over) (field_at k base)
        else field_at k base)
unfolding merge_map has_field field_at
field_at-merge_map base end k keyed = refl
field_at-merge_map base (field j v rest) k keyed =
    let base' = set_field j (merge_value v (field_at j base)) base in
    let later = field_at-merge_map base' rest k keyed.1 in
    let one = field_at-set_field j k (merge_value v (field_at j base)) base in
    ground (arith, later, one, keyed.0, ==_iff j k)
