-- ===== src/Listeners/Tls.antt =====
-- network/tls.rs: `load_manual_tls`, `load_certs` and `build_acme_config`. What reads PEM files and
-- what builds the acceptor are parameters.
use scety.Prelude.{
  ◌≡◌, refl, ◌≢◌, inl, inr, ◌↔◌, ap, ◌∙◌, Option, none, some, List, [], ◌∷◌, ◌++◌, map, unwrap_or,
  Option-cases, arith,
}
use scety.Text.{Text, codes}
use scety.Config.Services.{SslConfig}

some_injective : {A : Type 0} (d : A) {x y : A} → some x ≡ some y → x ≡ y
some_injective d e = ap (λ o. unwrap_or o d) e

module _ {Certificate Key Acceptor : Type 0}
    (pem_file_iter : Text → Option (List (Option Certificate))) (from_pem_file : Text → Option Key)
    (with_single_cert : List Certificate → Key → Option Acceptor) where
  -- `collect::<Result<_, _>>()`
  unfoldable pub collect : List (Option Certificate) → Option (List Certificate)
  collect [] = some []
  collect (none ∷ certs) = none
  collect (some cert ∷ certs) = elim (collect certs) [
    | none ↦ none
    | some rest ↦ some (cert ∷ rest)
  ]

  unfoldable pub load_certs : Text → Option (List Certificate)
  unfolding collect
  load_certs path = elim (pem_file_iter path) [
    | none ↦ none
    | some items ↦ elim (collect items) [
      | none ↦ none
      | some certs ↦ elim certs [ [] ↦ none | cert ∷ rest ↦ some (cert ∷ rest) ]
    ]
  ]

  unfoldable pub load_manual_tls : SslConfig → Option Acceptor
  unfolding load_certs
  load_manual_tls ssl = elim ssl.cert [
    | none ↦ none
    | some cert_path ↦ elim ssl.key [
      | none ↦ none
      | some key_path ↦ elim (load_certs cert_path) [
        | none ↦ none
        | some certs ↦ elim (from_pem_file key_path) [
          | none ↦ none
          | some key ↦ with_single_cert certs key
        ]
      ]
    ]
  ]

  -- The acceptor is built from these files.
  pub record Loaded (ssl : SslConfig) (acceptor : Acceptor) : Type 0 where
    pub cert_path : Text
    pub key_path : Text
    pub certs : List Certificate
    pub key : Key
    pub cert_given : ssl.cert ≡ some cert_path
    pub key_given : ssl.key ≡ some key_path
    pub all_read : pem_file_iter cert_path ≡ some (map some certs)
    pub not_empty : certs ≢ []
    pub key_read : from_pem_file key_path ≡ some key
    pub built : with_single_cert certs key ≡ some acceptor

  collect-all :
      (items : List (Option Certificate)) (certs : List Certificate)
      → collect items ≡ some certs
      → items ≡ map some certs
  unfolding collect
  collect-all [] certs e = ap (map some) (some_injective [] e)
  collect-all (none ∷ items) certs e = absurd (cc)
  collect-all (some c ∷ items) certs e = elim (Option-cases (collect items)) [
    | inl bad ↦ absurd (ground (arith, bad, e))
    | inr (rest, good) ↦
        let whole : some (c ∷ rest) ≡ some certs = ground (arith, good, e) in
        rw (collect-all items rest good) (ap (map some) (some_injective [] whole))
  ]

  collect-some : (certs : List Certificate) → collect (map some certs) ≡ some certs
  unfolding collect
  collect-some [] = refl
  collect-some (c ∷ certs) = rw (collect-some certs) refl

  load_certs-all :
      (path : Text) (certs : List Certificate)
      → load_certs path ≡ some certs
      → (pem_file_iter path ≡ some (map some certs)) × (certs ≢ [])
  unfolding load_certs
  load_certs-all path certs e = elim (Option-cases (pem_file_iter path)) [
    | inl unread ↦ absurd (ground (arith, unread, e))
    | inr (items, read) ↦ elim (Option-cases (collect items)) [
      | inl bad ↦ absurd (ground (arith, read, bad, e))
      | inr ([], good) ↦ absurd (ground (arith, read, good, e))
      | inr (c ∷ rest, good) ↦
          let whole : some (c ∷ rest) ≡ some certs = ground (arith, read, good, e) in
          let same : c ∷ rest ≡ certs = some_injective [] whole in
          (
            read ∙ ap some (collect-all items (c ∷ rest) good ∙ ap (map some) same),
            λ nil. absurd (cc),
          )
    ]
  ]

  load_certs-some :
      (path : Text) (certs : List Certificate)
      → pem_file_iter path ≡ some (map some certs)
      → certs ≢ []
      → load_certs path ≡ some certs
  unfolding load_certs
  load_certs-some path [] e full = absurd (full refl)
  load_certs-some path (c ∷ certs) e full = rw (load_certs, e, collect-some (c ∷ certs)) refl

  load-Loaded :
      (ssl : SslConfig) (acceptor : Acceptor)
      → load_manual_tls ssl ≡ some acceptor
      → Loaded ssl acceptor
  unfolding load_manual_tls
  load-Loaded ssl acceptor e = elim (Option-cases ssl.cert) [
    | inl lacking ↦ absurd (ground (arith, lacking, e))
    | inr (cert_path, a) ↦ elim (Option-cases ssl.key) [
      | inl lacking ↦ absurd (ground (arith, a, lacking, e))
      | inr (key_path, b) ↦ elim (Option-cases (load_certs cert_path)) [
        | inl lacking ↦ absurd (ground (arith, a, b, lacking, e))
        | inr (certs, c) ↦ elim (Option-cases (from_pem_file key_path)) [
          | inl lacking ↦ absurd (ground (arith, a, b, c, lacking, e))
          | inr (key, d) ↦
              let (read, full) = load_certs-all cert_path certs c in
              record {
                cert_path = cert_path;
                key_path = key_path;
                certs = certs;
                key = key;
                cert_given = a;
                key_given = b;
                all_read = read;
                not_empty = full;
                key_read = d;
                built = ground (arith, a, b, c, d, e);
              }
        ]
      ]
    ]
  ]

  -- A certificate is loaded exactly when its path and its key's path are given, every item of the
  -- certificate's file can be read and there is at least one, the key can be read, and the acceptor
  -- can be built from them; it is that acceptor.
  pub load_manual_tls_iff :
      (ssl : SslConfig) (acceptor : Acceptor)
      → (load_manual_tls ssl ≡ some acceptor) ↔ Loaded ssl acceptor
  unfolding load_manual_tls
  load_manual_tls_iff ssl acceptor = (
    load-Loaded ssl acceptor,
    λ l.
        rw
          (
            load_manual_tls,
            l.cert_given,
            l.key_given,
            load_certs-some l.cert_path l.certs l.all_read l.not_empty,
            l.key_read,
          )
          l.built,
  )

-- `AcmeConfig::new(domains).contact_push(..).cache(DirCache::new(..))`, as what it is given.
pub record AcmeConfig : Type 0 where
  pub domains : List Text
  pub contact : Text
  pub cache : Text

unfoldable pub build_acme_config : SslConfig → AcmeConfig
build_acme_config ssl = record {
  domains = unwrap_or ssl.acme_domains [];
  contact = codes "mailto:" ++ unwrap_or ssl.acme_email [];
  cache = unwrap_or ssl.acme_cache (codes "/etc/scety/acme-cache");
}
