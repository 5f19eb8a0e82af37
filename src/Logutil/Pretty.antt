-- ===== src/Logutil/Pretty.antt =====
-- internal/logutil/pretty_handler.go: the line that a log record becomes.
use nde.Prelude.{
  String, Bool, true, false, not, ◌&&◌, none, some, List, [], ◌∷◌, ◌++◌, ◌==◌, text_key,
  if◌then◌else◌,
}
use nde.Models.{ℤ}
use nde.Text.{◌then_text◌, join_texts, trim_space, strip_prefix, has_prefix}
use nde.Text.Integer.{itoa}
use nde.Logutil.{sanitize_value_by_key}

-- A slog.Value that is no group, resolved. `null` is the zero Value; `other` is a float, a duration,
-- a time or another value, with what strconv, time and fmt make of it: in formatValue, and in
-- fmt.Sprint.
pub data Scalar : Type 0 where
  null : Scalar
  string : String → Scalar
  boolean : Bool → Scalar
  int64 : ℤ → Scalar
  other : String → String → Scalar

-- slog.Attr: a key with a value, or with a group of attributes.
mutual
  pub data Attr : Type 0 where
    leaf : String → Scalar → Attr
    group : String → Attrs → Attr

  pub data Attrs : Type 0 where
    nil : Attrs
    cons : Attr → Attrs → Attrs

-- `formatValue`
unfoldable pub format_value : Scalar → String
unfolding itoa
format_value null = "<nil>"
format_value (string s) = s
format_value (boolean true) = "true"
format_value (boolean false) = "false"
format_value (int64 n) = itoa n
format_value (other formatted printed) = formatted

-- `fmt.Sprint(valueToAny(…))`
unfoldable pub print_value : Scalar → String
unfolding format_value
print_value (other formatted printed) = printed
print_value null = format_value null
print_value (string s) = format_value (string s)
print_value (boolean b) = format_value (boolean b)
print_value (int64 n) = format_value (int64 n)

abbrev pub is_null : Scalar → Bool
is_null null = true
is_null _ = false

-- The fields of the line so far, and its component.
pub record Collected : Type 0 where
  pub fields : List String
  pub component : String

-- `prefix + "." + key`, where both have a text.
unfoldable pub full_key : String → String → String
unfolding ◌then_text◌
full_key prefix key =
    if not (prefix == "") && not (key == "") then prefix then_text ("." then_text key) else key

unfoldable pub group_key : String → String → String
unfolding full_key
group_key prefix key = if full_key prefix key == "" then prefix else full_key prefix key

-- `collectAttr` for a value that is no group.
unfoldable pub collect_leaf : Collected → String → Scalar → Collected
unfolding print_value format_value sanitize_value_by_key ◌then_text◌
collect_leaf c key value =
    if key == "component"
    then record c { component = print_value value }
    else if key == ""
    then c
    else record c {
      fields =
          c.fields
          ++ (key then_text (": " then_text sanitize_value_by_key key (format_value value))) ∷ [];
    }

-- `collectAttr`, and its loops.
unfoldable mutual
  unfolding full_key group_key collect_leaf

  pub collect_attr : Collected → String → Attr → Collected
  collect_attr c prefix (leaf key value) =
      if key == "" && is_null value then c else collect_leaf c (full_key prefix key) value
  collect_attr c prefix (group key attrs) = collect_attrs c (group_key prefix key) attrs

  pub collect_attrs : Collected → String → Attrs → Collected
  collect_attrs c prefix nil = c
  collect_attrs c prefix (cons a rest) = collect_attrs (collect_attr c prefix a) prefix rest

-- `normalizeComponent`
unfoldable pub normalize_component : String → String
unfolding trim_space has_prefix strip_prefix ◌then_text◌
normalize_component component =
    let c = trim_space component in
    if c == ""
    then "marznode"
    else if has_prefix c "marznode."
    then c
    else if c == "main"
    then "marznode.marznode"
    else if c == "service"
    then "marznode.service"
    else if c == "grpc.unary"
    then "marznode.grpc.unary"
    else if c == "grpc.stream"
    then "marznode.grpc.stream"
    else elim (strip_prefix "backend." c) [
      | some rest ↦ "marznode.backends." then_text rest
      | none ↦ "marznode." then_text c
    ]

-- `PrettyHandler`, without its writer and mutex.
pub record PrettyHandler : Type 0 where
  pub attrs : Attrs
  pub groups : List String

unfoldable pub append_attrs : Attrs → Attrs → Attrs
append_attrs nil bs = bs
append_attrs (cons a as') bs = cons a (append_attrs as' bs)

-- `WithAttrs`
unfoldable pub with_attrs : PrettyHandler → Attrs → PrettyHandler
unfolding append_attrs
with_attrs h attrs = record h { attrs = append_attrs h.attrs attrs }

-- `WithGroup`
unfoldable pub with_group : PrettyHandler → String → PrettyHandler
with_group h name = if name == "" then h else record h { groups = h.groups ++ name ∷ [] }

-- slog.Record: the time and the level as they are written, the message and the attributes.
pub record LogRecord : Type 0 where
  pub timestamp : String
  pub level : String
  pub message : String
  pub attrs : Attrs

-- `groupPrefix`
unfoldable pub group_prefix : PrettyHandler → String
unfolding join_texts
group_prefix h = join_texts "." h.groups

-- What Handle collects.
unfoldable pub collected : PrettyHandler → LogRecord → Collected
unfolding collect_attrs group_prefix
collected h r =
    let start : Collected = record { fields = []; component = "" } in
    collect_attrs (collect_attrs start (group_prefix h) h.attrs) (group_prefix h) r.attrs

unfoldable pub line_of : LogRecord → Collected → String
unfolding normalize_component join_texts ◌then_text◌
line_of r c =
    let msg : String = elim c.fields [
      | [] ↦ r.message
      | _ ∷ _ ↦ r.message then_text (" | " then_text join_texts " | " c.fields)
    ] in
    join_texts " - " (
      r.timestamp
      ∷ r.level
      ∷ (normalize_component c.component then_text (": " then_text (msg then_text "\n")))
      ∷ [])

-- `Handle`
unfoldable pub handle : PrettyHandler → LogRecord → String
unfolding collected line_of
handle h r = line_of r (collected h r)
