-- ===== src/Tls.antt =====
-- internal/tlsutil/tls.go: the server's key pair, and which clients are let in.
pub mod Trust
mod Tests
use nde.Prelude.{
  ℕ, zero, suc, ◌+◌, String, Bool, true, false, not, ◌&&◌, ◌||◌, ◌⊎◌, inl, inr, Option, none, some,
  List, [], ◌∷◌, ◌==◌, text_key, if◌then◌else◌, is_empty, length,
}
use nde.Backend.{Error, failed, wrapped}

-- A block of a PEM text.
pub record Block : Type 0 where
  pub type_of : String
  pub bytes : String

-- Packages crypto/x509, crypto/tls and encoding/pem, and the file system. Byte slices are texts.
-- `decode` is pem.Decode, `pool_of` is AppendCertsFromPEM on a new pool, none where it gives false, and
-- `verify` tells whether Verify of a leaf, with a pool of roots and a list of intermediates, gives nil.
-- `make_pair` makes a key and a certificate, as PEM texts.
pub record Outside : Type 1 where
  pub World : Type 0
  pub Certificate : Type 0
  pub Pool : Type 0
  pub ServerPair : Type 0
  pub parse_certificate : String → Error ⊎ Certificate
  pub raw : Certificate → String
  pub decode : String → Option (Block × String)
  pub pool_of : String → Option Pool
  pub verify : Pool → List Certificate → Certificate → Bool
  pub load_pair : World → String → String → Error ⊎ ServerPair
  pub read_file : World → String → Error ⊎ String
  pub file_exists : World → String → Bool
  pub write_file : World → String → String → Option Error × World
  pub make_pair : World → (Error ⊎ (String × String)) × World

module _ (X : Outside) where
  written_cert : String → String → Option Error × X.World → Option Error × X.World
  written_cert cert_path cert_pem (some e, w) = (some e, w)
  written_cert cert_path cert_pem (none, w) = X.write_file w cert_path cert_pem

  made_pair : String → String → (Error ⊎ (String × String)) × X.World → Option Error × X.World
  unfolding written_cert
  made_pair cert_path key_path (inl e, w) = (some e, w)
  made_pair cert_path key_path (inr (key_pem, cert_pem), w) =
      written_cert cert_path cert_pem (X.write_file w key_path key_pem)

  -- `EnsureServerKeypair`
  unfoldable pub ensure_server_keypair : X.World → String → String → Option Error × X.World
  unfolding made_pair
  ensure_server_keypair w cert_path key_path =
      if X.file_exists w cert_path && X.file_exists w key_path
      then (none, w)
      else made_pair cert_path key_path (X.make_pair w)

  cert_of : Block → Option X.Certificate
  cert_of b =
      if b.type_of == "CERTIFICATE"
      then elim (X.parse_certificate b.bytes) [ inl e ↦ none | inr c ↦ some c ]
      else none

  kept : Option X.Certificate → List X.Certificate → List X.Certificate
  kept none later = later
  kept (some c) later = c ∷ later

  -- `parsePEMCerts`, with a bound on the number of blocks.
  unfoldable pub parse_pem_certs : ℕ → String → List X.Certificate
  unfolding kept cert_of
  parse_pem_certs zero rest = []
  parse_pem_certs (suc fuel) rest = elim (X.decode rest) [
    | none ↦ []
    | some (b, rest') ↦ kept (cert_of b) (parse_pem_certs fuel rest')
  ]

  -- What VerifyPeerCertificate captures of a tls.Config.
  pub record TlsConfig : Type 0 where
    pub server_cert : X.ServerPair
    pub pool : X.Pool
    pub trusted : List X.Certificate

  -- `parseCertificate` of every certificate that the client sent.
  unfoldable pub parse_all : List String → Error ⊎ List X.Certificate
  parse_all [] = inr []
  parse_all (data' ∷ rest) = elim (X.parse_certificate data') [
    | inl e ↦ inl (wrapped "parse client cert" e)
    | inr c ↦ elim (parse_all rest) [ inl e ↦ inl e | inr cs ↦ inr (c ∷ cs) ]
  ]

  -- The fallback: the leaf is one of the trusted certificates.
  unfoldable pub is_pinned : List X.Certificate → X.Certificate → Bool
  is_pinned [] leaf = false
  is_pinned (tc ∷ rest) leaf = X.raw tc == X.raw leaf || is_pinned rest leaf

  verify_parsed : TlsConfig → Error ⊎ List X.Certificate → Option Error
  unfolding is_pinned
  verify_parsed cfg (inl e) = some e
  verify_parsed cfg (inr []) = some (failed "no client certificate")
  verify_parsed cfg (inr (leaf ∷ intermediates)) =
      if X.verify cfg.pool intermediates leaf
      then none
      else if is_pinned cfg.trusted leaf
      then none
      else some (failed "client certificate is not trusted")

  -- `VerifyPeerCertificate`
  unfoldable pub verify_peer : TlsConfig → List String → Option Error
  unfolding parse_all verify_parsed
  verify_peer cfg raw_certs =
      if is_empty raw_certs
      then some (failed "no client certificate")
      else verify_parsed cfg (parse_all raw_certs)

  with_pool : X.ServerPair → String → ℕ → Option X.Pool → Error ⊎ TlsConfig
  unfolding parse_pem_certs
  with_pool server_cert client_pem fuel none = inl (failed "invalid client certificate")
  with_pool server_cert client_pem fuel (some pool) =
      let trusted = parse_pem_certs fuel client_pem in
      if is_empty trusted
      then inl (failed "no cert found in client certificate bundle")
      else inr (record { server_cert = server_cert; pool = pool; trusted = trusted })

  -- `BuildServerTLSConfig`
  unfoldable pub build_server_tls_config :
      ℕ → X.World → String → String → String → Error ⊎ TlsConfig
  unfolding with_pool
  build_server_tls_config fuel w cert_path key_path client_cert_path =
      if client_cert_path == ""
      then inl (failed "missing client certificate")
      else elim (X.load_pair w cert_path key_path) [
        | inl e ↦ inl e
        | inr server_cert ↦ elim (X.read_file w client_cert_path) [
          | inl e ↦ inl e
          | inr client_pem ↦ with_pool server_cert client_pem fuel (X.pool_of client_pem)
        ]
      ]
