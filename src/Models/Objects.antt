-- ===== src/Models/Objects.antt =====
-- Maps of strings to any, `map[string]any`: reading a key and setting one.
use nde.Prelude.{
  ℕ, ◌+◌, ◌-◌, ◌*◌, ◌/◌, ◌%◌, ◌^◌, ltb, leb, String, Bool, false, ◌||◌, ◌==◌, ◌≡◌, refl, arith,
  text_key, if◌then◌else◌, ==_iff,
}
use nde.Models.{
  ℤ, pos, negsuc, int, float, Any, null, slice, obj, Items, nil, cons, Fields, end, field,
}

-- nil where the key is missing.
unfoldable pub field_at : String → Fields → Any
field_at key end = null
field_at key (field k v rest) = let later = field_at key rest in if k == key then v else later

unfoldable pub has_field : String → Fields → Bool
has_field key end = false
has_field key (field k v rest) = k == key || has_field key rest

unfoldable pub set_field : String → Any → Fields → Fields
set_field key v end = field key v end
set_field key v (field k w rest) =
    let later = set_field key v rest in if k == key then field k v rest else field k w later

pub field_at-set_field :
    (key k : String) (v : Any) (fields : Fields)
    → field_at k (set_field key v fields) ≡ (if key == k then v else field_at k fields)
unfolding field_at set_field
field_at-set_field key k v end = refl
field_at-set_field key k v (field j w rest) =
    ground (arith, field_at-set_field key k v rest, ==_iff j key, ==_iff j k, ==_iff key k)

-- `toMap`: another type gives an empty map.
unfoldable pub to_map : Any → Fields
to_map (obj fields) = fields
to_map _ = end

-- `v.([]any)`: another type gives nil.
unfoldable pub to_items : Any → Items
to_items (slice items) = items
to_items _ = nil

unfoldable pub append_items : Items → Items → Items
append_items nil ys = ys
append_items (cons x xs) ys = cons x (append_items xs ys)

-- `toInt` on a float64, given by its bits: the integer towards zero. What Go leaves open, a number
-- outside of int64, is the least int64, as on amd64.
unfoldable pub float_to_int : ℕ → ℤ
float_to_int bits =
    let exponent = bits / 2 ^ 52 % 2048 in
    let mantissa = 2 ^ 52 + bits % 2 ^ 52 in
    let size =
      if ltb exponent 1075
      then mantissa / 2 ^ (1075 - exponent)
      else mantissa * 2 ^ (exponent - 1075) in
    if ltb exponent 1023
    then pos 0
    else if leb 1086 exponent
    then negsuc (2 ^ 63 - 1)
    else if ltb bits (2 ^ 63)
    then pos size
    else negsuc (size - 1)

-- `toInt`
unfoldable pub to_int : Any → ℤ
unfolding float_to_int
to_int (int n) = n
to_int (float bits) = float_to_int bits
to_int _ = pos 0
