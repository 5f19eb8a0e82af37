-- ===== src/Auth/Identifier.antt =====
-- internal/auth/generator.go, UserIdentifier: the user that an identifier names.
use Prim.Native.Char.{Char, code}
use nde.Prelude.{
  ℕ, zero, suc, ◌+◌, ◌/◌, ◌%◌, ◌<◌, String, false, none, some, ◌==◌, ◌≡◌, refl, arith, ap, ◌∙◌,
  number_key, text_key, ltb, Bool-cases, inl, inr,
}
use nde.Text.{trim_left, is_space, cut_text, strip_prefix, second_part, text_digit, ◌then_text◌}
use nde.Text.Decimal.{digits, decimal, read_digits, read_digits-digits, scan_uint32, digit_code}
use nde.Auth.{user_identifier}

trim_left-digit :
    (d : ℕ) (rest : String)
    → d < 10
    → trim_left (String.◌∷◌ (text_digit d) rest) ≡ String.◌∷◌ (text_digit d) rest
unfolding trim_left is_space
trim_left-digit d rest h = rw (digit_code d h) (ground arith)

trim_left-digits :
    (k n : ℕ) (rest : String)
    → trim_left rest ≡ rest
    → trim_left (digits k n rest) ≡ digits k n rest
unfolding digits
trim_left-digits zero n rest h = h
trim_left-digits (suc k) n rest h =
    let first = trim_left-digit (n % 10) rest (omega arith) in
    elim (Bool-cases (ltb n 10)) [
      | inl small ↦ rw small first
      | inr large ↦
          rw large (trim_left-digits k (n / 10) (String.◌∷◌ (text_digit (n % 10)) rest) first)
    ]

-- No separator that starts with another character stands among the digits.
module _ (c : Char) (sep : String) (other : (d : ℕ) → d < 10 → (code c == 48 + d) ≡ false) where
  strip_prefix-digit :
      (d : ℕ) (rest : String)
      → d < 10
      → strip_prefix (String.◌∷◌ c sep) (String.◌∷◌ (text_digit d) rest) ≡ none
  unfolding strip_prefix
  strip_prefix-digit d rest h = rw (digit_code d h, other d h) refl

  cut_text-digit :
      (d : ℕ) (rest : String)
      → d < 10
      → cut_text (String.◌∷◌ c sep) (String.◌∷◌ (text_digit d) rest) ≡ (
        String.◌∷◌ (text_digit d) (cut_text (String.◌∷◌ c sep) rest).0,
        (cut_text (String.◌∷◌ c sep) rest).1,
      )
  unfolding cut_text
  cut_text-digit d rest h = rw (strip_prefix-digit d rest h, cut_text) refl

  cut_text-digits :
      (k n : ℕ) (rest : String)
      → cut_text (String.◌∷◌ c sep) (digits k n rest)
        ≡ (digits k n (cut_text (String.◌∷◌ c sep) rest).0, (cut_text (String.◌∷◌ c sep) rest).1)
  unfolding digits
  cut_text-digits zero n rest = refl
  cut_text-digits (suc k) n rest =
      let first = cut_text-digit (n % 10) rest (omega arith) in
      elim (Bool-cases (ltb n 10)) [
        | inl small ↦ rw small first
        | inr large ↦
            rw large
              (cut_text-digits k (n / 10) (String.◌∷◌ (text_digit (n % 10)) rest) ∙ rw first refl)
      ]

-- The number in front of the first dot of an identifier is the user's id.
pub scan_uint32-user_identifier :
    (uid : ℕ) (username : String)
    → uid < 4294967296
    → scan_uint32 (cut_text "." (user_identifier uid username)).0 ≡ uid
unfolding scan_uint32 user_identifier cut_text strip_prefix
scan_uint32-user_identifier uid username h =
    let shown : (cut_text "." (digits 20 uid (String.◌∷◌ "." username))).0 ≡ digits 20 uid "" =
      ap (λ p. p.0)
        (cut_text-digits "." "" (λ d lt. ground arith) 20 uid (String.◌∷◌ "." username)) in
    let whole : read_digits 0 (digits 20 uid "") ≡ uid =
      read_digits-digits 20 uid "" (omega (arith, h)) (omega arith) in
    rw (shown, trim_left-digits 20 uid "" refl, whole) (ground (arith, h))

-- A statistic's name has the identifier of its user as its second part, up to a separator in the
-- user's name.
pub second_part-user_identifier :
    (uid : ℕ) (rest : String)
    → (username : String) × (second_part ">>>" ("user>>>" then_text user_identifier uid rest)
        ≡ some (user_identifier uid username))
unfolding second_part user_identifier ◌then_text◌ cut_text strip_prefix
second_part-user_identifier uid rest = (
  (cut_text ">>>" rest).0,
  ap (λ p. some p.0) (cut_text-digits ">" ">>" (λ d lt. ground arith) 20 uid (String.◌∷◌ "." rest)),
)

-- What stands behind the first dot of an identifier is the user's name.
pub cut_text-user_identifier :
    (uid : ℕ) (username : String) → (cut_text "." (user_identifier uid username)).1 ≡ some username
unfolding user_identifier cut_text strip_prefix
cut_text-user_identifier uid username =
    ap (λ p. p.1) (cut_text-digits "." "" (λ d lt. ground arith) 20 uid (String.◌∷◌ "." username))

-- The decimal number stands in front of it.
pub cut_text-front :
    (uid : ℕ) (username : String) → (cut_text "." (user_identifier uid username)).0 ≡ decimal uid
unfolding user_identifier cut_text strip_prefix decimal
cut_text-front uid username =
    ap (λ p. p.0) (cut_text-digits "." "" (λ d lt. ground arith) 20 uid (String.◌∷◌ "." username))
