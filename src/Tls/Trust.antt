-- ===== src/Tls/Trust.antt =====
-- internal/tlsutil/tls.go: the clients that are let in.
use nde.Prelude.{
  ℕ, zero, suc, ◌≤◌, String, Bool, true, false, ◌&&◌, ◌||◌, ◌⊎◌, ◌↔◌, inl, inr, Option, none, some,
  List, [], ◌∷◌, ◌==◌, ◌≡◌, refl, arith, ap, ◌∙◌, sym, subst, text_key, is_empty, length,
  Bool-cases, ==_iff,
}
use nde.Backend.{Error, failed, wrapped}
use nde.Tls.{
  Block, Outside, cert_of, kept, parse_pem_certs, TlsConfig, parse_all, is_pinned, verify_parsed,
  verify_peer, with_pool, build_server_tls_config,
}

module _ (X : Outside) where
  -- The blocks that pem.Decode finds in a text, one after the other.
  pub data Blocks : String → List Block → Type 0 where
    last : {rest : String} → X.decode rest ≡ none → Blocks rest []
    next :
        {text rest : String} {b : Block} {bs : List Block}
        → X.decode text ≡ some (b, rest)
        → Blocks rest bs
        → Blocks text (b ∷ bs)

  -- A text has a block of type CERTIFICATE with these bytes.
  unfoldable pub has_certificate : String → List Block → Bool
  has_certificate der [] = false
  has_certificate der (b ∷ bs) =
      (b.type_of == "CERTIFICATE" && b.bytes == der) || has_certificate der bs

  -- What the client sent are these certificates.
  pub data Parsed : List String → List X.Certificate → Type 0 where
    none_left : Parsed [] []
    one_more :
        {data' : String} {rest : List String} {c : X.Certificate} {cs : List X.Certificate}
        → X.parse_certificate data' ≡ inr c
        → Parsed rest cs
        → Parsed (data' ∷ rest) (c ∷ cs)

  whole_input_lem :
      (data' : String) (rest : List String) (cs : List X.Certificate)
      (first : Error ⊎ X.Certificate) (later : Error ⊎ List X.Certificate)
      → X.parse_certificate data' ≡ first
      → parse_all X rest ≡ later
      → ((ds : List X.Certificate) → later ≡ inr ds → Parsed rest ds)
      → parse_all X (data' ∷ rest) ≡ inr cs
      → Parsed (data' ∷ rest) cs
  unfolding parse_all
  whole_input_lem data' rest cs (inl x) later p q known e =
      absurd
        (let never : inl (wrapped "parse client cert" x) ≡ inr cs = rw (p, parse_all) at e in cc)
  whole_input_lem data' rest cs (inr c) (inl x) p q known e =
      absurd (let never : inl x ≡ inr cs = rw (p, parse_all, q) at e in cc)
  whole_input_lem data' rest cs (inr c) (inr ds) p q known e =
      let whole : inr (c ∷ ds) ≡ inr cs = rw (p, parse_all, q) at e in
      let it : c ∷ ds ≡ cs = cc in subst (Parsed (data' ∷ rest)) it (one_more p (known ds refl))

  parse_all-Parsed :
      (raws : List String) (cs : List X.Certificate) → parse_all X raws ≡ inr cs → Parsed raws cs
  parse_all-Parsed [] cs e =
      let it : [] ≡ cs = unfold parse_all in cc in subst (Parsed []) it none_left
  parse_all-Parsed (data' ∷ rest) cs e =
      whole_input_lem data' rest cs (X.parse_certificate data') (parse_all X rest) refl refl
        (λ ds q. parse_all-Parsed rest ds q) e

  Parsed-parse_all :
      {raws : List String} {cs : List X.Certificate} → Parsed raws cs → parse_all X raws ≡ inr cs
  unfolding parse_all
  Parsed-parse_all none_left = refl
  Parsed-parse_all (one_more p rest) = rw (p, parse_all, Parsed-parse_all rest) refl

  -- The certificates of the blocks that have one.
  certs_of : List Block → List X.Certificate
  certs_of [] = []
  certs_of (b ∷ bs) = kept X (cert_of X b) (certs_of bs)

  parse_pem_certs-Blocks :
      {text : String} {bs : List Block} (fuel : ℕ)
      → Blocks text bs
      → length bs ≤ fuel
      → parse_pem_certs X fuel text ≡ certs_of bs
  unfolding parse_pem_certs certs_of
  parse_pem_certs-Blocks zero (last e) h = refl
  parse_pem_certs-Blocks (suc fuel) (last e) h = rw (e, parse_pem_certs) refl
  parse_pem_certs-Blocks zero (next e rest) h = absurd (omega (arith, h))
  parse_pem_certs-Blocks (suc fuel) (next {b = b} {bs = bs} e rest) h =
      let later = parse_pem_certs-Blocks fuel rest (omega (arith, h)) in
      rw (e, parse_pem_certs) (ap (kept X (cert_of X b)) later)

  module _
      (raw_lem : (der : String) (c : X.Certificate)
        → X.parse_certificate der ≡ inr c
        → X.raw c ≡ der) where
    not_same :
        (der bytes : String) (leaf : X.Certificate) (x : Error)
        → X.parse_certificate der ≡ inr leaf
        → X.parse_certificate bytes ≡ inl x
        → (bytes == der) ≡ false
    not_same der bytes leaf x p q = elim (Bool-cases (bytes == der)) [
      | inl y ↦ let same : bytes ≡ der = (==_iff bytes der).0 y in absurd cc
      | inr n ↦ n
    ]

    is_pinned-kept :
        (der : String) (leaf : X.Certificate) (b : Block) (cs : List X.Certificate) (is_cert : Bool)
        (parsed : Error ⊎ X.Certificate)
        → X.parse_certificate der ≡ inr leaf
        → (b.type_of == "CERTIFICATE") ≡ is_cert
        → X.parse_certificate b.bytes ≡ parsed
        → is_pinned X (kept X (cert_of X b) cs) leaf
          ≡ (b.type_of == "CERTIFICATE" && b.bytes == der) || is_pinned X cs leaf
    unfolding cert_of kept is_pinned
    is_pinned-kept der leaf b cs false parsed p t q = rw (t) refl
    is_pinned-kept der leaf b cs true (inl x) p t q =
        rw (t, q, not_same der b.bytes leaf x p q) refl
    is_pinned-kept der leaf b cs true (inr c) p t q =
        rw (t, q, raw_lem b.bytes c q, raw_lem der leaf p) refl

    is_pinned-certs_of :
        (der : String) (leaf : X.Certificate) (bs : List Block)
        → X.parse_certificate der ≡ inr leaf
        → is_pinned X (certs_of bs) leaf ≡ has_certificate der bs
    unfolding is_pinned certs_of has_certificate
    is_pinned-certs_of der leaf [] p = refl
    is_pinned-certs_of der leaf (b ∷ bs) p =
        is_pinned-kept der leaf b (certs_of bs) (b.type_of == "CERTIFICATE")
          (X.parse_certificate b.bytes) p refl refl
        ∙ ap (λ r. (b.type_of == "CERTIFICATE" && b.bytes == der) || r)
            (is_pinned-certs_of der leaf bs p)

  -- A client that sends these certificates is trusted: they can be parsed, and the first is verified by
  -- the pool of the text or stands in it.
  pub data IsTrusted (pem : String) (bs : List Block) : List String → Type 0 where
    known :
        {der : String} {rest : List String} {leaf : X.Certificate}
        {intermediates : List X.Certificate} {pool : X.Pool}
        → Parsed (der ∷ rest) (leaf ∷ intermediates)
        → X.pool_of pem ≡ some pool
        → (X.verify pool intermediates leaf || has_certificate der bs) ≡ true
        → IsTrusted pem bs (der ∷ rest)

  with_pool_lem :
      (s : X.ServerPair) (pem : String) (fuel : ℕ) (pool : Option X.Pool) (cfg : TlsConfig X)
      → with_pool X s pem fuel pool ≡ inr cfg
      → (pool ≡ some cfg.pool) × (cfg.trusted ≡ parse_pem_certs X fuel pem)
  unfolding with_pool
  with_pool_lem s pem fuel none cfg e = absurd cc
  with_pool_lem s pem fuel (some pool) cfg e =
      elim (Bool-cases (is_empty (parse_pem_certs X fuel pem))) [
        | inl y ↦ absurd (
            let never : inl (failed "no cert found in client certificate bundle") ≡ inr cfg =
              rw (y) at e in
            cc)
        | inr n ↦
            let it : inr
                  (record { server_cert = s; pool = pool; trusted = parse_pem_certs X fuel pem })
                ≡ inr cfg =
              rw (n) at e in
            let same : record { server_cert = s; pool = pool; trusted = parse_pem_certs X fuel pem }
                ≡ cfg =
              cc in
            (ap (λ c. some c.pool) same, ap (λ c. c.trusted) (sym same))
      ]

  built_from :
      (fuel : ℕ) (w : X.World) (cert_path key_path client_path pem : String) (cfg : TlsConfig X)
      (none_given : Bool) (pair : Error ⊎ X.ServerPair)
      → (client_path == "") ≡ none_given
      → X.load_pair w cert_path key_path ≡ pair
      → X.read_file w client_path ≡ inr pem
      → build_server_tls_config X fuel w cert_path key_path client_path ≡ inr cfg
      → (X.pool_of pem ≡ some cfg.pool) × (cfg.trusted ≡ parse_pem_certs X fuel pem)
  unfolding build_server_tls_config
  built_from fuel w cert_path key_path client_path pem cfg true pair t l h e =
      absurd (let never : inl (failed "missing client certificate") ≡ inr cfg = rw (t) at e in cc)
  built_from fuel w cert_path key_path client_path pem cfg false (inl x) t l h e =
      absurd (let never : inl x ≡ inr cfg = rw (t, l) at e in cc)
  built_from fuel w cert_path key_path client_path pem cfg false (inr s) t l h e =
      with_pool_lem s pem fuel (X.pool_of pem) cfg (rw (t, l, h) at e)

  built_lem :
      (fuel : ℕ) (w : X.World) (cert_path key_path client_path pem : String) (cfg : TlsConfig X)
      → build_server_tls_config X fuel w cert_path key_path client_path ≡ inr cfg
      → X.read_file w client_path ≡ inr pem
      → (X.pool_of pem ≡ some cfg.pool) × (cfg.trusted ≡ parse_pem_certs X fuel pem)
  built_lem fuel w cert_path key_path client_path pem cfg e h =
      built_from fuel w cert_path key_path client_path pem cfg (client_path == "")
        (X.load_pair w cert_path key_path) refl refl h e

  let_in :
      (cfg : TlsConfig X) (leaf : X.Certificate) (intermediates : List X.Certificate)
      (verified pinned : Bool)
      → X.verify cfg.pool intermediates leaf ≡ verified
      → is_pinned X cfg.trusted leaf ≡ pinned
      → (verify_parsed X cfg (inr (leaf ∷ intermediates)) ≡ none) ↔ ((verified || pinned) ≡ true)
  unfolding verify_parsed
  let_in cfg leaf intermediates true pinned v p = (λ e. refl, λ t. rw (v) refl)
  let_in cfg leaf intermediates false true v p = (λ e. refl, λ t. rw (v, p) refl)
  let_in cfg leaf intermediates false false v p = (
    λ e. absurd (
        let never : some (failed "client certificate is not trusted") ≡ none = rw (v, p) at e in
        cc),
    λ t. absurd cc,
  )

  module _
      (raw_lem : (der : String) (c : X.Certificate)
        → X.parse_certificate der ≡ inr c
        → X.raw c ≡ der) where
    module _ (fuel : ℕ) (w : X.World) (cert_path key_path client_path pem : String)
        (bs : List Block) (cfg : TlsConfig X)
        (built : build_server_tls_config X fuel w cert_path key_path client_path ≡ inr cfg)
        (given : X.read_file w client_path ≡ inr pem) (blocks : Blocks pem bs)
        (enough : length bs ≤ fuel) where
      pinned_lem :
          (der : String) (leaf : X.Certificate)
          → X.parse_certificate der ≡ inr leaf
          → is_pinned X cfg.trusted leaf ≡ has_certificate der bs
      pinned_lem der leaf p =
          rw
            (
              (built_lem fuel w cert_path key_path client_path pem cfg built given).1,
              parse_pem_certs-Blocks fuel blocks enough,
            )
            (is_pinned-certs_of raw_lem der leaf bs p)

      accepted :
          (der : String) (rest : List String) (parsed : Error ⊎ List X.Certificate)
          → parse_all X (der ∷ rest) ≡ parsed
          → verify_parsed X cfg parsed ≡ none
          → IsTrusted pem bs (der ∷ rest)
      unfolding verify_parsed
      accepted der rest (inl x) q e = absurd cc
      accepted der rest (inr []) q e = absurd cc
      accepted der rest (inr (leaf ∷ inters)) q e = elim (parse_all-Parsed (der ∷ rest) _ q) [
        | one_more p later ↦
            known (one_more p later)
              (built_lem fuel w cert_path key_path client_path pem cfg built given).0
              (let either : (X.verify cfg.pool inters leaf || is_pinned X cfg.trusted leaf) ≡ true =
                  (let_in cfg leaf inters _ _ refl refl).0 e in
                rw (pinned_lem der leaf p) at either)
      ]

      unknown : (raws : List String) → verify_peer X cfg raws ≡ none → IsTrusted pem bs raws
      unfolding verify_peer
      unknown [] e = absurd cc
      unknown (der ∷ rest) e = accepted der rest (parse_all X (der ∷ rest)) refl e

      IsTrusted-verify_peer :
          {raws : List String} → IsTrusted pem bs raws → verify_peer X cfg raws ≡ none
      unfolding verify_peer
      IsTrusted-verify_peer
            (known {der = der} {leaf = leaf} {intermediates = inters} {pool = pool}
              (one_more p later)
              has
              either) =
          let same : some pool ≡ some cfg.pool =
            sym has ∙ (built_lem fuel w cert_path key_path client_path pem cfg built given).0 in
          let its : pool ≡ cfg.pool = cc in
          let own : (X.verify cfg.pool inters leaf || has_certificate der bs) ≡ true =
            rw (its) at either in
          rw (Parsed-parse_all (one_more p later))
            ((let_in cfg leaf inters _ _ refl refl).1 (rw (sym (pinned_lem der leaf p)) at own))

      -- For a configuration that is built from a file with a PEM text, whose blocks are as many as the
      -- bound or fewer, and where the certificate that is parsed from a text has this text as its raw one:
      -- the peer is accepted exactly if all that it sent can be parsed, at least one certificate, and the
      -- first is verified by the pool of the PEM text with the others as intermediates, or is the content
      pub verify_peer_iff :
          (raws : List String) → (verify_peer X cfg raws ≡ none) ↔ IsTrusted pem bs raws
      verify_peer_iff raws = (unknown raws, IsTrusted-verify_peer)
