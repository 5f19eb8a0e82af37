-- ===== src/Text.antt =====
-- Go's strings, strconv and fmt, as far as the program uses them, on texts of characters.
pub mod Decimal
pub mod Base64
pub mod Integer
use Prim.Native.Char.{Char, code}
use Prim.Native.String.{char_at}
use nde.Prelude.{
  ℕ, zero, suc, ◌+◌, ◌*◌, ◌-◌, ◌/◌, ◌%◌, String, Bool, true, false, not, ◌&&◌, ◌||◌, Option, none,
  some, List, [], ◌∷◌, ◌==◌, number_key, text_key, if◌then◌else◌, leb, ltb,
}

-- Two texts one behind the other.
infixr 60 ◌then_text◌
unfoldable pub ◌then_text◌ : String → String → String
String.[] then_text t = t
String.◌∷◌ c s then_text t = String.◌∷◌ c (s then_text t)

lower_char : String → String → Char → Char
lower_char (String.◌∷◌ u us) (String.◌∷◌ l ls) c =
    if code c == code u then l else lower_char us ls c
lower_char _ _ c = c

-- strings.ToLower. Other letters outside ASCII than the two that become ASCII letters stay as they
-- are: the program compares the result with words of ASCII letters only.
unfoldable pub to_lower : String → String
unfolding lower_char
to_lower String.[] = String.[]
to_lower (String.◌∷◌ c s) =
    String.◌∷◌ (lower_char "ABCDEFGHIJKLMNOPQRSTUVWXYZİK" "abcdefghijklmnopqrstuvwxyzik" c)
      (to_lower s)

-- strings.Join
unfoldable pub join_texts : String → List String → String
unfolding ◌then_text◌
join_texts sep [] = ""
join_texts sep (t ∷ rest) =
    let later = join_texts sep rest in
    elim rest [ [] ↦ t | _ ∷ _ ↦ t then_text (sep then_text later) ]

-- unicode.IsSpace
unfoldable pub is_space : Char → Bool
is_space c =
    let n = code c in
    (leb 9 n && leb n 13)
    || n == 32
    || n == 133
    || n == 160
    || n == 5760
    || (leb 8192 n && leb n 8202)
    || n == 8232
    || n == 8233
    || n == 8239
    || n == 8287
    || n == 12288

unfoldable pub trim_left : String → String
unfolding is_space
trim_left String.[] = String.[]
trim_left (String.◌∷◌ c s) = let rest = trim_left s in if is_space c then rest else String.◌∷◌ c s

unfoldable pub trim_right : String → String
unfolding is_space
trim_right String.[] = String.[]
trim_right (String.◌∷◌ c s) =
    let rest = trim_right s in if is_space c && rest == "" then String.[] else String.◌∷◌ c rest

-- strings.TrimSpace
unfoldable pub trim_space : String → String
unfolding trim_left trim_right
trim_space s = trim_right (trim_left s)

-- The text behind a prefix: strings.HasPrefix and strings.TrimPrefix.
unfoldable pub strip_prefix : String → String → Option String
strip_prefix String.[] s = some s
strip_prefix (String.◌∷◌ p ps) String.[] = none
strip_prefix (String.◌∷◌ p ps) (String.◌∷◌ c s) =
    let rest = strip_prefix ps s in if code p == code c then rest else none

unfoldable pub has_prefix : String → String → Bool
unfolding strip_prefix
has_prefix s prefix = elim (strip_prefix prefix s) [ none ↦ false | some rest ↦ true ]

-- strings.Contains
unfoldable pub contains_text : String → String → Bool
unfolding has_prefix
contains_text String.[] part = part == ""
contains_text (String.◌∷◌ c s) part = has_prefix (String.◌∷◌ c s) part || contains_text s part

-- The text in front of the first separator, and the text behind it if there is one: strings.Split
-- gives these two parts first, and strings.SplitN with 2 gives these two alone.
unfoldable pub cut_text : String → String → String × Option String
unfolding strip_prefix
cut_text sep String.[] = (String.[], none)
cut_text sep (String.◌∷◌ c s) =
    let (before, after) = cut_text sep s in
    elim (strip_prefix sep (String.◌∷◌ c s)) [
      | some rest ↦ (String.[], some rest)
      | none ↦ (String.◌∷◌ c before, after)
    ]

-- `strings.Split(s, sep)[1]`, where there is one.
unfoldable pub second_part : String → String → Option String
unfolding cut_text
second_part sep s = elim (cut_text sep s).1 [ none ↦ none | some rest ↦ some (cut_text sep rest).0 ]

abbrev pub text_digit : ℕ → Char
text_digit d = char_at "0123456789" d
