-- ===== src/Xray/Api/Account.antt =====
-- internal/backend/xray/api.go, buildAccount: the account of a user for an inbound's protocol.
pub mod Supported
pub mod Keys
use nde.Prelude.{
  ℕ, String, Bool, true, false, ◌&&◌, ◌||◌, ◌⊎◌, inl, inr, Option, none, some, List, [], ◌∷◌, ◌==◌,
  text_key, number_key, if◌then◌else◌, length,
}
use nde.Backend.{Error, failed}
use nde.Auth.{Packages, AuthAlgorithm, generate_uuid, generate_password}
use nde.Text.{to_lower, has_prefix, contains_text, ◌then_text◌}
use nde.Text.Base64.{encode, decode}

-- `shadowsocks.CipherType`
pub data Cipher : Type 0 where
  aes_128_gcm : Cipher
  aes_256_gcm : Cipher
  chacha20_poly1305 : Cipher
  xchacha20_poly1305 : Cipher
  no_cipher : Cipher
  unknown : Cipher

-- The messages of xray's packages; a shadowsocks account that sets no cipher has the unknown one.
pub data Account : Type 0 where
  vmess : String → Account
  vless : String → String → Account
  trojan : String → Account
  shadowsocks : String → Cipher → Account

unfoldable pub cipher_type_from_method : String → Cipher
unfolding to_lower
cipher_type_from_method method =
    let m = to_lower method in
    if m == "aes-128-gcm" || m == "aes_128_gcm"
    then aes_128_gcm
    else if m == "aes-256-gcm" || m == "aes_256_gcm"
    then aes_256_gcm
    else if m == "chacha20-poly1305" || m == "chacha20_poly1305"
    then chacha20_poly1305
    else if m == "xchacha20-poly1305" || m == "xchacha20_poly1305"
    then xchacha20_poly1305
    else if m == "none"
    then no_cipher
    else unknown

-- A key of this length may stay as it is.
unfoldable pub fits_method : String → ℕ → Bool
unfolding contains_text
fits_method method size =
    contains_text method "aes-128-gcm" && size == 16
    || (contains_text method "aes-256-gcm" || contains_text method "chacha20-poly1305")
      && size == 32

abbrev pub take_bytes : ℕ → List ℕ → List ℕ
take_bytes Prim.Native.Nat.zero bytes = []
take_bytes (Prim.Native.Nat.suc n) [] = []
take_bytes (Prim.Native.Nat.suc n) (b ∷ bytes) = b ∷ take_bytes n bytes

unfoldable pub hashed_key : (String → List ℕ) → String → String → String
unfolding contains_text encode
hashed_key sha256 password method =
    let sum = sha256 password in
    encode (if contains_text method "aes-128-gcm" then take_bytes 16 sum else sum)

-- `sha256` is Sum256.
unfoldable pub ensure_base64_password : (String → List ℕ) → String → String → String
unfolding hashed_key fits_method decode
ensure_base64_password sha256 password method = elim (decode password) [
  | none ↦ hashed_key sha256 password method
  | some decoded ↦
      if fits_method method (length decoded) then password else hashed_key sha256 password method
]

abbrev pub with_id : Error ⊎ String → (String → Account) → Error ⊎ Account
with_id (inl e) make = inl e
with_id (inr id) make = inr (make id)

module _ (P : Packages Error) (sha256 : String → List ℕ) (algo : AuthAlgorithm) where
  unfoldable pub shadowsocks_account : String → String → Account
  unfolding to_lower has_prefix generate_password ensure_base64_password cipher_type_from_method
  shadowsocks_account seed method =
      let password = generate_password P seed algo in
      let m = to_lower method in
      if has_prefix m "2022-blake3"
      then shadowsocks (ensure_base64_password sha256 password m) unknown
      else shadowsocks password (cipher_type_from_method m)

  unfoldable pub build_account : String → String → String → String → Error ⊎ Account
  unfolding to_lower generate_uuid generate_password shadowsocks_account ensure_base64_password
      ◌then_text◌
  build_account protocol_name seed flow method =
      let name = to_lower protocol_name in
      if name == "vmess"
      then with_id (generate_uuid P seed algo) (λ id. vmess id)
      else if name == "vless"
      then with_id (generate_uuid P seed algo) (λ id. vless id flow)
      else if name == "trojan"
      then inr (trojan (generate_password P seed algo))
      else if name == "shadowsocks"
      then inr (shadowsocks_account seed method)
      else if name == "shadowsocks2022"
      then inr (
          shadowsocks (ensure_base64_password sha256 (generate_password P seed algo) method)
            unknown)
      else inl (failed ("unsupported protocol: " then_text protocol_name))
