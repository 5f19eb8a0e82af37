-- ===== src/Auth.antt =====
-- internal/auth/generator.go, and the algorithm of internal/config/config.go: the secrets of a user
-- from its key. The hash (xxh3), the hexadecimal text and the UUIDs are of other packages.
pub mod Identifier
mod Tests
use nde.Prelude.{
  ℕ, String, ◌+◌, ◌*◌, ◌/◌, ◌%◌, ◌^◌, ◌<◌, ◌++◌, ◌⊎◌, List, [], ◌∷◌, ◌≡◌, refl, arith, length, ap,
  ◌∙◌,
}
use nde.Text.Decimal.{digits}

-- `config.AuthAlgorithm`: every text but "plain" selects the hash.
pub data AuthAlgorithm : Type 0 where
  auth_plain : AuthAlgorithm
  auth_hash : AuthAlgorithm

-- `hash128` gives Hi and Lo; `parse` and `from_bytes` give a UUID as a text, or an error.
pub record Packages (Err : Type 0) : Type 0 where
  pub hash128 : String → ℕ × ℕ
  pub hex_encode : List ℕ → String
  pub parse : String → Err ⊎ String
  pub from_bytes : List ℕ → Err ⊎ String

-- `byte(word >> 56)` and so on.
unfoldable pub word_bytes : ℕ → List ℕ
word_bytes word =
    (word / 72057594037927936) % 256
    ∷ (word / 281474976710656) % 256
    ∷ (word / 1099511627776) % 256
    ∷ (word / 4294967296) % 256
    ∷ (word / 16777216) % 256
    ∷ (word / 65536) % 256
    ∷ (word / 256) % 256
    ∷ word % 256
    ∷ []

-- `fmt.Sprintf("%d.%s", uid, username)`
unfoldable pub user_identifier : ℕ → String → String
unfolding digits
user_identifier uid username = digits 20 uid (String.◌∷◌ "." username)

module _ {Err : Type 0} (P : Packages Err) where
  pub xxh128_bytes : String → List ℕ
  unfolding word_bytes
  xxh128_bytes seed = word_bytes (P.hash128 seed).0 ++ word_bytes (P.hash128 seed).1

  unfoldable pub generate_uuid : String → AuthAlgorithm → Err ⊎ String
  generate_uuid seed auth_plain = P.parse seed
  generate_uuid seed auth_hash = P.from_bytes (xxh128_bytes seed)

  unfoldable pub generate_password : String → AuthAlgorithm → String
  generate_password seed auth_plain = seed
  generate_password seed auth_hash = P.hex_encode (xxh128_bytes seed)

-- The number that bytes stand for, the most significant first.
unfoldable pub big_endian : ℕ → List ℕ → ℕ
big_endian acc [] = acc
big_endian acc (byte ∷ rest) = big_endian (acc * 256 + byte) rest

big_endian-append :
    (acc : ℕ) (xs ys : List ℕ) → big_endian acc (xs ++ ys) ≡ big_endian (big_endian acc xs) ys
unfolding big_endian
big_endian-append acc [] ys = refl
big_endian-append acc (x ∷ xs) ys = big_endian-append (acc * 256 + x) xs ys

big_endian-word_bytes :
    (acc word : ℕ)
    → word < 18446744073709551616
    → big_endian acc (word_bytes word) ≡ acc * 18446744073709551616 + word
unfolding big_endian word_bytes
big_endian-word_bytes acc word h = omega arith

module _ {Err : Type 0} (P : Packages Err) where
  -- The bytes of the digest are the 128-bit hash, most significant byte first.
  pub big_endian-xxh128_bytes :
      (seed : String)
      → (P.hash128 seed).0 < 18446744073709551616
      → (P.hash128 seed).1 < 18446744073709551616
      → big_endian 0 (xxh128_bytes P seed)
        ≡ (P.hash128 seed).0 * 18446744073709551616 + (P.hash128 seed).1
  unfolding xxh128_bytes
  big_endian-xxh128_bytes seed high low =
      big_endian-append 0 (word_bytes (P.hash128 seed).0) (word_bytes (P.hash128 seed).1)
      ∙ ap (λ acc. big_endian acc (word_bytes (P.hash128 seed).1))
          (big_endian-word_bytes 0 (P.hash128 seed).0 high)
      ∙ big_endian-word_bytes _ (P.hash128 seed).1 low
      ∙ omega arith
