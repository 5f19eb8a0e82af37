-- ===== src/Text/Decimal.antt =====
-- fmt and strconv: decimal numbers, written with %d and read with %d into a uint32.
use Prim.Native.Char.{Char, code}
use nde.Prelude.{
  ℕ, zero, suc, ◌+◌, ◌*◌, ◌-◌, ◌/◌, ◌%◌, ◌<◌, String, Bool, true, false, ◌&&◌, ◌≡◌, refl, arith,
  number_key, text_key, if◌then◌else◌, leb, ltb, ap, ◌∙◌, ◌^◌, Bool-cases, inl, inr,
}
use nde.Text.{trim_left, text_digit}

-- The digits of a number in front of a text; the first argument bounds their count.
unfoldable pub digits : ℕ → ℕ → String → String
digits zero n rest = rest
digits (suc k) n rest =
    let out = String.◌∷◌ (text_digit (n % 10)) rest in
    let more = digits k (n / 10) out in if ltb n 10 then out else more

-- A number below 10 ^ 20, so any uint64.
unfoldable pub decimal : ℕ → String
unfolding digits
decimal n = digits 20 n ""

abbrev pub is_digit : Char → Bool
is_digit c = leb 48 (code c) && leb (code c) 57

-- The value of the digits in front, behind those read before.
unfoldable pub read_digits : ℕ → String → ℕ
read_digits n String.[] = n
read_digits n (String.◌∷◌ c s) =
    let more = read_digits (n * 10 + (code c - 48)) s in if is_digit c then more else n

-- `fmt.Sscanf(s, "%d", &uid)` with a uint32 that was 0: it stays 0 where the text has no digits in
-- front or the number does not fit.
unfoldable pub scan_uint32 : String → ℕ
unfolding trim_left read_digits
scan_uint32 s = let n = read_digits 0 (trim_left s) in if ltb n 4294967296 then n else 0

pub digit_code : (d : ℕ) → d < 10 → code (text_digit d) ≡ 48 + d
digit_code zero h = refl
digit_code (suc zero) h = refl
digit_code (suc (suc zero)) h = refl
digit_code (suc (suc (suc zero))) h = refl
digit_code (suc (suc (suc (suc zero)))) h = refl
digit_code (suc (suc (suc (suc (suc zero))))) h = refl
digit_code (suc (suc (suc (suc (suc (suc zero)))))) h = refl
digit_code (suc (suc (suc (suc (suc (suc (suc zero))))))) h = refl
digit_code (suc (suc (suc (suc (suc (suc (suc (suc zero)))))))) h = refl
digit_code (suc (suc (suc (suc (suc (suc (suc (suc (suc zero))))))))) h = refl
digit_code (suc (suc (suc (suc (suc (suc (suc (suc (suc (suc d)))))))))) h = absurd (omega arith)

read_digits-digit :
    (a d : ℕ) (rest : String)
    → d < 10
    → read_digits a (String.◌∷◌ (text_digit d) rest) ≡ read_digits (a * 10 + d) rest
unfolding read_digits
read_digits-digit a d rest h =
    let low : leb 48 (48 + d) ≡ true = ground arith in
    let high : leb (48 + d) 57 ≡ true = ground arith in
    let value : 48 + d - 48 ≡ d = omega arith in rw (digit_code d h, low, high, value) refl

several : (k n : ℕ) → n < 10 ^ suc k → ltb n 10 ≡ false → 0 < k
several zero n h large = absurd (ground arith)
several (suc k) n h large = omega arith

-- Digits that are written and then read are the number.
pub read_digits-digits :
    (k n : ℕ) (rest : String)
    → n < 10 ^ k
    → 0 < k
    → read_digits 0 (digits k n rest) ≡ read_digits n rest
unfolding digits
read_digits-digits zero n rest h pos = absurd (omega arith)
read_digits-digits (suc k) n rest h pos = elim (Bool-cases (ltb n 10)) [
  | inl small ↦ rw small (
      read_digits-digit 0 (n % 10) rest (omega arith) ∙ ap (λ m. read_digits m rest) (ground arith))
  | inr large ↦
      let last : n / 10 * 10 + n % 10 ≡ n = omega arith in
      let fewer : n / 10 < 10 ^ k = omega arith in
      rw large (
        read_digits-digits k (n / 10) (String.◌∷◌ (text_digit (n % 10)) rest) fewer
          (several k n h large)
        ∙ read_digits-digit (n / 10) (n % 10) rest (omega arith)
        ∙ ap (λ m. read_digits m rest) last)
]
