-- ===== src/Xray/Api/Account/Keys.antt =====
-- internal/backend/xray/api.go, ensureBase64Password: the key that a shadowsocks 2022 account has.
use nde.Prelude.{
  ℕ, zero, suc, ◌≤◌, String, true, false, ◌&&◌, ◌||◌, some, List, [], ◌∷◌, ◌≡◌, refl, arith,
  number_key, if◌then◌else◌, length, ap, ◌∙◌, sym, subst, Bool-cases, Option-cases, inl, inr,
  ==_iff,
}
use nde.Text.{contains_text}
use nde.Text.Base64.{decode}
use nde.Text.Base64.Roundtrip.{AllBytes, decode-encode}
use nde.Xray.Api.Account.{fits_method, take_bytes, hashed_key, ensure_base64_password}

take_bytes-AllBytes : (n : ℕ) (bytes : List ℕ) → AllBytes bytes → AllBytes (take_bytes n bytes)
take_bytes-AllBytes zero bytes h = tt
take_bytes-AllBytes (suc n) [] h = tt
take_bytes-AllBytes (suc n) (b ∷ rest) h = (h.0, take_bytes-AllBytes n rest h.1)

length-take_bytes : (n : ℕ) (bytes : List ℕ) → n ≤ length bytes → length (take_bytes n bytes) ≡ n
length-take_bytes zero bytes h = refl
length-take_bytes (suc n) [] h = absurd (omega (arith, h))
length-take_bytes (suc n) (b ∷ rest) h = omega (arith, length-take_bytes n rest (omega (arith, h)))

-- The length of key that a method has.
unfoldable pub key_size : String → ℕ
unfolding contains_text
key_size method = if contains_text method "aes-128-gcm" then 16 else 32

-- The text is a key of this length.
abbrev pub IsKey : ℕ → String → Type 0
IsKey size text = (key : List ℕ) × ((decode text ≡ some key) × (length key ≡ size))

fits_method-key_size :
    (method : String) (size : ℕ)
    → (contains_text method "aes-128-gcm"
        && (contains_text method "aes-256-gcm" || contains_text method "chacha20-poly1305"))
      ≡ false
    → fits_method method size ≡ true
    → size ≡ key_size method
unfolding fits_method key_size
fits_method-key_size method size one fits =
    ground (arith, one, fits, ==_iff size 16, ==_iff size 32)

module _ (sha256 : String → List ℕ)
    (sound : (text : String) → AllBytes (sha256 text) × (length (sha256 text) ≡ 32)) where
  hashed_key-IsKey :
      (password method : String) → IsKey (key_size method) (hashed_key sha256 password method)
  unfolding hashed_key key_size
  hashed_key-IsKey password method =
      let sum = sha256 password in
      let s = sound password in
      elim (Bool-cases (contains_text method "aes-128-gcm")) [
        | inl narrow ↦ rw narrow (
          take_bytes 16 sum,
          (
            decode-encode (take_bytes 16 sum) (take_bytes-AllBytes 16 sum s.0),
            length-take_bytes 16 sum (omega (arith, s.1)),
          ),
        )
        | inr wide ↦ rw wide (sum, (decode-encode sum s.0, s.1))
      ]

  -- For a method that does not name a 128-bit cipher together with a 256-bit one, the password of
  -- the account decodes to a key of the method's length, whatever the user's password is.
  pub ensure_base64_password-IsKey :
      (password method : String)
      → (contains_text method "aes-128-gcm"
          && (contains_text method "aes-256-gcm" || contains_text method "chacha20-poly1305"))
        ≡ false
      → IsKey (key_size method) (ensure_base64_password sha256 password method)
  unfolding ensure_base64_password
  ensure_base64_password-IsKey password method one =
      let result = ensure_base64_password sha256 password method in
      let hashed : result ≡ hashed_key sha256 password method → IsKey (key_size method) result =
        λ e.
          subst (λ text. IsKey (key_size method) text) (sym e) (hashed_key-IsKey password method) in
      elim (Option-cases (decode password)) [
        | inl bad ↦ hashed (rw (bad, ensure_base64_password) refl)
        | inr (key, good) ↦ elim (Bool-cases (fits_method method (length key))) [
          | inr other ↦ hashed (rw (good, ensure_base64_password, other) refl)
          | inl fits ↦
              let e : result ≡ password = rw (good, ensure_base64_password, fits) refl in
              (key, (ap decode e ∙ good, fits_method-key_size method (length key) one fits))
        ]
      ]
