-- ===== src/Tls/Tests.antt =====
-- internal/tlsutil/tls.go: a run of the checks of a client.
use nde.Prelude.{
  String, Bool, true, false, ◌⊎◌, inl, inr, Option, none, some, [], ◌∷◌, ◌==◌, ◌≡◌, ◌↔◌, refl,
  arith, text_key, if◌then◌else◌, is_empty, not,
}
use nde.Backend.{Error, failed}
use nde.Tls.{Block, Outside, TlsConfig, verify_peer, build_server_tls_config}
use nde.Tls.Trust.{last, next, IsTrusted, verify_peer_iff}

abbrev alice_block : Block
alice_block = record { type_of = "CERTIFICATE"; bytes = "alice" }

abbrev key_block : Block
key_block = record { type_of = "PRIVATE KEY"; bytes = "secret" }

abbrev parse_text : String → Error ⊎ String
parse_text t = if t == "junk" then inl (failed "malformed certificate") else inr t

abbrev decode_text : String → Option (Block × String)
decode_text t =
    if t == "two blocks"
    then some (key_block, "one block")
    else if t == "one block"
    then some (alice_block, "")
    else none

-- A world in which certificates are texts and a leaf with an intermediate is verified.
abbrev outside : Outside
outside = record {
  World = String;
  Certificate = String;
  Pool = String;
  ServerPair = String;
  parse_certificate = parse_text;
  raw = λ c. c;
  decode = decode_text;
  pool_of = λ t. some t;
  verify = λ pool intermediates leaf. not (is_empty intermediates);
  load_pair = λ w cert key. inr cert;
  read_file = λ w path. inr w;
  file_exists = λ w path. true;
  write_file = λ w path t. (none, w);
  make_pair = λ w. (inr ("key", "cert"), w);
}

parsed_raw : (der c : String) → parse_text der ≡ inr c → c ≡ der
parsed_raw der c e = raw_from (der == "junk") refl e
  where
    raw_from : (b : Bool) → (der == "junk") ≡ b → parse_text der ≡ inr c → c ≡ der
    raw_from true q h =
        absurd (let never : inl (failed "malformed certificate") ≡ inr c = rw (q) at h in cc)
    raw_from false q h = let it : inr der ≡ inr c = rw (q) at h in cc

abbrev config : TlsConfig outside
config = record { server_cert = "server.cert"; pool = "two blocks"; trusted = "alice" ∷ [] }

built :
    build_server_tls_config outside 2 "two blocks" "server.cert" "server.key" "client.cert"
    ≡ inr config
unfolding build_server_tls_config
built = refl

bob_stays_out :
    verify_peer outside config ("bob" ∷ []) ≡ some (failed "client certificate is not trusted")
unfolding verify_peer
bob_stays_out = refl

verify_peer_iff_example :
    (verify_peer outside config ("alice" ∷ []) ≡ none)
    ↔ IsTrusted outside "two blocks" (key_block ∷ alice_block ∷ []) ("alice" ∷ [])
verify_peer_iff_example =
    verify_peer_iff outside parsed_raw 2 "two blocks" "server.cert" "server.key" "client.cert"
      "two blocks" (key_block ∷ alice_block ∷ []) config built refl
      (next refl (next refl (last refl))) (omega arith) ("alice" ∷ [])
