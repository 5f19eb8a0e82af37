-- ===== src/Text/Base64.antt =====
-- encoding/base64: StdEncoding, on lists of bytes.
pub mod Roundtrip
use Prim.Native.Char.{Char, code}
use Prim.Native.String.{char_at}
use nde.Prelude.{
  ℕ, ◌+◌, ◌*◌, ◌-◌, ◌/◌, ◌%◌, String, Bool, true, false, ◌&&◌, ◌||◌, Option, none, some, List, [],
  ◌∷◌, ◌==◌, number_key, text_key, if◌then◌else◌, leb, ◌≡◌, refl, arith, ◌<◌, zero, suc,
}

infixl 10 ◌>>=◌
unfoldable ◌>>=◌ {ℓ κ} : {A : Type ℓ} {B : Type κ} → Option A → (A → Option B) → Option B
none >>= f = none
some a >>= f = f a

abbrev letter : ℕ → String → String
letter n rest =
    String.◌∷◌ (char_at "ABCDEFGHIJKLMNOPQRSTUVWXYZabcdefghijklmnopqrstuvwxyz0123456789+/" (n % 64))
      rest

-- EncodeToString
unfoldable pub encode : List ℕ → String
encode [] = ""
encode (a ∷ []) = letter (a / 4) (letter (a * 16) "==")
encode (a ∷ b ∷ []) = letter (a / 4) (letter (a * 16 + b / 16) (letter (b * 4) "="))
encode (a ∷ b ∷ c ∷ rest) =
    letter (a / 4) (letter (a * 16 + b / 16) (letter (b * 4 + c / 64) (letter c (encode rest))))

-- The value of a letter, none for any other character.
unfoldable pub value : Char → Option ℕ
value c =
    let n = code c in
    if leb 65 n && leb n 90
    then some (n - 65)
    else if leb 97 n && leb n 122
    then some (n - 71)
    else if leb 48 n && leb n 57
    then some (n + 4)
    else if n == 43
    then some 62
    else if n == 47
    then some 63
    else none

-- Line breaks do not count.
unfoldable pub on_one_line : String → String
on_one_line String.[] = ""
on_one_line (String.◌∷◌ c s) =
    let rest = on_one_line s in if code c == 10 || code c == 13 then rest else String.◌∷◌ c rest

is_padding : Char → Bool
is_padding c = code c == 61

-- The bytes that two, three or four letters stand for; bits that are left over do not count.
one_byte : Char → Char → Option (List ℕ)
unfolding value ◌>>=◌
one_byte p q = do m ← value p; n ← value q; some ((m * 4 + n / 16) % 256 ∷ [])

two_bytes : Char → Char → Char → Option (List ℕ)
unfolding value ◌>>=◌
two_bytes p q r = do
  m ← value p
  n ← value q
  o ← value r
  some ((m * 4 + n / 16) % 256 ∷ (n * 16 + o / 4) % 256 ∷ [])

three_bytes : Char → Char → Char → Char → List ℕ → Option (List ℕ)
unfolding value ◌>>=◌
three_bytes p q r s rest = do
  m ← value p
  n ← value q
  o ← value r
  k ← value s
  some ((m * 4 + n / 16) % 256 ∷ (n * 16 + o / 4) % 256 ∷ (o * 64 + k) % 256 ∷ rest)

unfoldable pub decode_letters : String → Option (List ℕ)
unfolding one_byte two_bytes three_bytes is_padding
decode_letters (String.◌∷◌ p (String.◌∷◌ q (String.◌∷◌ r (String.◌∷◌ s rest)))) =
    let later = decode_letters rest in
    if rest == "" && is_padding s
    then if is_padding r then one_byte p q else two_bytes p q r
    else elim later [ none ↦ none | some bytes ↦ three_bytes p q r s bytes ]
decode_letters String.[] = some []
decode_letters _ = none

-- DecodeString, none for an error.
unfoldable pub decode : String → Option (List ℕ)
unfolding decode_letters on_one_line
decode s = decode_letters (on_one_line s)
