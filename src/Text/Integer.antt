-- ===== src/Text/Integer.antt =====
-- strconv: signed integers, written by Itoa and read by Atoi.
use Prim.Native.Char.{Char, code}
use nde.Prelude.{
  ℕ, zero, suc, ◌+◌, ◌-◌, ◌/◌, ◌%◌, ◌≤◌, ◌<◌, ◌^◌, String, Bool, true, false, not, ◌&&◌, Option,
  none, some, ◌==◌, ◌≡◌, refl, arith, number_key, text_key, if◌then◌else◌, leb, ltb, ap, ◌∙◌,
  ==_iff, Bool-cases, inl, inr,
}
use nde.Models.{ℤ, pos, negsuc}
use nde.Text.{text_digit}
use nde.Text.Decimal.{digits, decimal, is_digit, digit_code, read_digits, read_digits-digits}

-- strconv.Itoa
unfoldable pub itoa : ℤ → String
unfolding decimal
itoa (pos n) = decimal n
itoa (negsuc n) = String.◌∷◌ "-" (decimal (n + 1))

-- A text of digits only.
unfoldable pub all_digits : String → Bool
all_digits String.[] = true
all_digits (String.◌∷◌ c s) = is_digit c && all_digits s

-- The number of an unsigned text, where it fits the int.
unfoldable pub int_of : Bool → ℕ → Option ℤ
int_of negative n =
    if negative
    then if leb n (2 ^ 63) then some (if n == 0 then pos 0 else negsuc (n - 1)) else none
    else if ltb n (2 ^ 63)
    then some (pos n)
    else none

unfoldable pub parse_unsigned : Bool → String → Option ℤ
unfolding all_digits read_digits int_of
parse_unsigned negative s =
    if not (s == "") && all_digits s then int_of negative (read_digits 0 s) else none

-- strconv.Atoi: an optional sign and decimal digits.
unfoldable pub atoi : String → Option ℤ
unfolding parse_unsigned
atoi String.[] = none
atoi (String.◌∷◌ c s) =
    if code c == 45
    then parse_unsigned true s
    else if code c == 43
    then parse_unsigned false s
    else parse_unsigned false (String.◌∷◌ c s)

is_digit-text_digit : (d : ℕ) → d < 10 → is_digit (text_digit d) ≡ true
is_digit-text_digit d h = rw (digit_code d h) (ground arith)

all_digits-digits :
    (k n : ℕ) (rest : String) → all_digits rest ≡ true → all_digits (digits k n rest) ≡ true
unfolding digits all_digits
all_digits-digits zero n rest h = h
all_digits-digits (suc k) n rest h =
    let one : all_digits (String.◌∷◌ (text_digit (n % 10)) rest) ≡ true =
      rw (is_digit-text_digit (n % 10) (omega arith)) h in
    elim (Bool-cases (ltb n 10)) [
      | inl small ↦ rw small one
      | inr large ↦
          rw large (all_digits-digits k (n / 10) (String.◌∷◌ (text_digit (n % 10)) rest) one)
    ]

abbrev is_some_text : String → Bool
is_some_text String.[] = false
is_some_text (String.◌∷◌ c s) = true

pub some_text : (c : Char) (s : String) → (String.◌∷◌ c s == "") ≡ false
some_text c s = elim (Bool-cases (String.◌∷◌ c s == "")) [
  | inl empty ↦
      absurd
        (let never : true ≡ false = ap is_some_text ((==_iff (String.◌∷◌ c s) "").0 empty) in cc)
  | inr some' ↦ some'
]

digits-some_text :
    (k n : ℕ) (rest : String) → (rest == "") ≡ false → (digits k n rest == "") ≡ false
unfolding digits
digits-some_text zero n rest h = h
digits-some_text (suc k) n rest h =
    let c = text_digit (n % 10) in
    elim (Bool-cases (ltb n 10)) [
      | inl small ↦ rw small (some_text c rest)
      | inr large ↦ rw large (digits-some_text k (n / 10) (String.◌∷◌ c rest) (some_text c rest))
    ]

pub decimal-some_text : (n : ℕ) → (decimal n == "") ≡ false
unfolding decimal digits
decimal-some_text n =
    let c = text_digit (n % 10) in
    elim (Bool-cases (ltb n 10)) [
      | inl small ↦ rw small (some_text c "")
      | inr large ↦ rw large (digits-some_text 19 (n / 10) (String.◌∷◌ c "") (some_text c ""))
    ]

parse_unsigned-decimal :
    (negative : Bool) (n : ℕ) → n ≤ 2 ^ 63 → parse_unsigned negative (decimal n) ≡ int_of negative n
unfolding parse_unsigned
parse_unsigned-decimal negative n h =
    let number : read_digits 0 (decimal n) ≡ n =
      unfold decimal read_digits in read_digits-digits 20 n "" (omega arith) (omega arith) in
    let all : all_digits (decimal n) ≡ true =
      unfold decimal all_digits in all_digits-digits 20 n "" refl in
    rw (decimal-some_text n, all, number) refl

atoi-unsigned : (s : String) → all_digits s ≡ true → atoi s ≡ parse_unsigned false s
unfolding atoi all_digits parse_unsigned
atoi-unsigned String.[] h = refl
atoi-unsigned (String.◌∷◌ c s) h =
    let first : is_digit c ≡ true = ground (arith, h) in ground (arith, first)

-- An int64, as `int` is on the platforms of the node.
abbrev pub IsInt64 : ℤ → Type 0
IsInt64 (pos n) = n < 2 ^ 63
IsInt64 (negsuc n) = n < 2 ^ 63

-- What Itoa writes Atoi reads.
pub atoi-itoa : (z : ℤ) → IsInt64 z → atoi (itoa z) ≡ some z
unfolding itoa
atoi-itoa (pos n) h =
    atoi-unsigned (decimal n) (unfold decimal all_digits in all_digits-digits 20 n "" refl)
    ∙ parse_unsigned-decimal false n (omega arith)
    ∙ unfold int_of in ground (arith, h)
atoi-itoa (negsuc n) h =
    unfold atoi in
    (parse_unsigned-decimal true (n + 1) (omega arith)) ∙ unfold int_of in ground (arith, h)
