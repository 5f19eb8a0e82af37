-- ===== src/Text/Base64/Roundtrip.antt =====
-- encoding/base64: what is encoded is decoded again.
use Prim.Native.Char.{Char, code}
use Prim.Native.String.{char_at}
use nde.Prelude.{
  ℕ, zero, suc, ◌+◌, ◌*◌, ◌/◌, ◌%◌, ◌<◌, String, Bool, true, false, not, ◌&&◌, ◌||◌, Option, none,
  some, List, [], ◌∷◌, ◌==◌, ◌≡◌, refl, arith, number_key, text_key, leb, ap, ◌∙◌, ==_iff,
}
use nde.Text.Base64.{
  encode, value, decode, decode_letters, on_one_line, is_padding, one_byte, two_bytes, three_bytes,
  letter, ◌>>=◌,
}

abbrev sign : ℕ → Char
sign n = char_at "ABCDEFGHIJKLMNOPQRSTUVWXYZabcdefghijklmnopqrstuvwxyz0123456789+/" n

abbrev same_option : Option ℕ → ℕ → Bool
same_option none n = false
same_option (some m) n = m == n

reads_back : ℕ → Bool
unfolding value
reads_back n = let c = sign n in same_option (value c) n && (leb 14 (code c) && not (code c == 61))

all_below : (ℕ → Bool) → ℕ → Bool
all_below test zero = true
all_below test (suc n) = test n && all_below test n

all_below-each : (test : ℕ → Bool) (k n : ℕ) → all_below test k ≡ true → n < k → test n ≡ true
unfolding all_below
all_below-each test zero n h lt = absurd (omega arith)
all_below-each test (suc k) n h lt = ground (arith, all_below-each test k n, h, lt)

letters_read_back : all_below reads_back 64 ≡ true
unfolding all_below reads_back value
letters_read_back = refl

letter_value : (n : ℕ) → n < 64 → reads_back n ≡ true
letter_value n lt = all_below-each reads_back 64 n letters_read_back lt

same_option-true : (o : Option ℕ) (n : ℕ) → same_option o n ≡ true → o ≡ some n
same_option-true none n h = absurd (ground (arith, h))
same_option-true (some m) n h = ground (arith, h, ==_iff m n)

-- A letter has its value, and is neither a line break nor the padding.
value-sign :
    (n : ℕ)
    → n < 64
    → (value (sign n) ≡ some n)
      × ((code (sign n) == 61) ≡ false)
      × (((code (sign n) == 10) || (code (sign n) == 13)) ≡ false)
unfolding reads_back
value-sign n lt =
    let back = letter_value n lt in
    let c = code (sign n) in
    (
      same_option-true (value (sign n)) n (ground (arith, back)),
      ground (arith, back),
      ground (arith, back),
    )

on_one_line-letter :
    (n : ℕ) {rest : String} → on_one_line rest ≡ rest → on_one_line (letter n rest) ≡ letter n rest
unfolding on_one_line
on_one_line-letter n h = rw ((value-sign (n % 64) (omega arith)).2, h) refl

on_one_line-encode : (bytes : List ℕ) → on_one_line (encode bytes) ≡ encode bytes
unfolding encode on_one_line
on_one_line-encode [] = refl
on_one_line-encode (a ∷ []) =
    on_one_line-letter (a / 4) (on_one_line-letter (a * 16) {rest = "=="} refl)
on_one_line-encode (a ∷ b ∷ []) =
    on_one_line-letter (a / 4)
      (on_one_line-letter (a * 16 + b / 16) (on_one_line-letter (b * 4) {rest = "="} refl))
on_one_line-encode (a ∷ b ∷ c ∷ rest) = on_one_line-letter (a / 4) (
    on_one_line-letter (a * 16 + b / 16)
      (on_one_line-letter (b * 4 + c / 64) (on_one_line-letter c (on_one_line-encode rest))))

value-letter : (n : ℕ) → value (sign (n % 64)) ≡ some (n % 64)
value-letter n = (value-sign (n % 64) (omega arith)).0

letter-is_padding : (n : ℕ) → is_padding (sign (n % 64)) ≡ false
unfolding is_padding
letter-is_padding n = (value-sign (n % 64) (omega arith)).1

-- The three bytes of four letters.
first_byte : (a b : ℕ) → a < 256 → b < 16 → ((a / 4) % 64 * 4 + (a * 16 + b) % 64 / 16) % 256 ≡ a
first_byte a b la lb = omega arith

second_byte :
    (a b c : ℕ) → b < 256 → c < 4 → ((a * 16 + b / 16) % 64 * 16 + (b * 4 + c) % 64 / 4) % 256 ≡ b
second_byte a b c lb lc = omega arith

third_byte : (b c : ℕ) → c < 256 → ((b * 4 + c / 64) % 64 * 64 + c % 64) % 256 ≡ c
third_byte b c lc = omega arith

abbrev pub AllBytes : List ℕ → Type 0
AllBytes [] = Unit
AllBytes (b ∷ rest) = (b < 256) × AllBytes rest

one_byte-letters :
    (a : ℕ) → a < 256 → one_byte (sign (a / 4 % 64)) (sign (a * 16 % 64)) ≡ some (a ∷ [])
unfolding one_byte ◌>>=◌
one_byte-letters a la =
    rw (value-letter (a / 4), value-letter (a * 16)) (ap (λ x. some (x ∷ [])) (omega (arith, la)))

two_bytes-letters :
    (a b : ℕ)
    → a < 256
    → b < 256
    → two_bytes (sign (a / 4 % 64)) (sign ((a * 16 + b / 16) % 64)) (sign (b * 4 % 64))
      ≡ some (a ∷ b ∷ [])
unfolding two_bytes ◌>>=◌
two_bytes-letters a b la lb =
    let x : ((a / 4) % 64 * 4 + (a * 16 + b / 16) % 64 / 16) % 256 ≡ a = omega (arith, la, lb) in
    let y : ((a * 16 + b / 16) % 64 * 16 + (b * 4) % 64 / 4) % 256 ≡ b = omega (arith, la, lb) in
    rw (value-letter (a / 4), value-letter (a * 16 + b / 16), value-letter (b * 4)) (rw (x, y) refl)

three_bytes-letters :
    (a b c : ℕ) (rest : List ℕ)
    → a < 256
    → b < 256
    → c < 256
    → three_bytes
        (sign (a / 4 % 64))
        (sign ((a * 16 + b / 16) % 64))
        (sign ((b * 4 + c / 64) % 64))
        (sign (c % 64))
        rest
      ≡ some (a ∷ b ∷ c ∷ rest)
unfolding three_bytes ◌>>=◌
three_bytes-letters a b c rest la lb lc =
    let x = first_byte a (b / 16) la (omega (arith, lb)) in
    let y = second_byte a b (c / 64) lb (omega (arith, lc)) in
    let z = third_byte b c lc in
    rw
      (
        value-letter (a / 4),
        value-letter (a * 16 + b / 16),
        value-letter (b * 4 + c / 64),
        value-letter c,
      )
      (rw (x, y, z) refl)

decode_letters-encode :
    (bytes : List ℕ) → AllBytes bytes → decode_letters (encode bytes) ≡ some bytes
unfolding decode_letters encode is_padding
decode_letters-encode [] h = refl
decode_letters-encode (a ∷ []) h = one_byte-letters a h.0
decode_letters-encode (a ∷ b ∷ []) h =
    rw (letter-is_padding (b * 4)) (two_bytes-letters a b h.0 h.1.0)
decode_letters-encode (a ∷ b ∷ c ∷ rest) h =
    rw (letter-is_padding c, decode_letters-encode rest h.1.1.1)
      (ground (arith, three_bytes-letters a b c rest h.0 h.1.0 h.1.1.0))

-- Bytes that are encoded and then decoded are the same bytes.
pub decode-encode : (bytes : List ℕ) → AllBytes bytes → decode (encode bytes) ≡ some bytes
unfolding decode
decode-encode bytes h = ap decode_letters (on_one_line-encode bytes) ∙ decode_letters-encode bytes h
