-- ===== src/CertCheck/Checks.antt =====
-- When the check of all configured certificates succeeds.
use scety.Prelude.{
  ◌≡◌, refl, ◌↔◌, Bool, true, false, Option, some, List, [], ◌∷◌, arith, All, unwrap_or, inl, inr,
  subst, Bool-cases, Option-cases,
}
use scety.Text.{Text}
use scety.Config.Services.{ClientConfig, SslConfig}
use scety.CertCheck.{
  Certificates, expected_hosts, check_certificate, check_one, check_each, check_config, check_from,
  check_all_configured_certs,
}

module _ (world : Certificates) (bundle : Option Text) where
  -- A section without ACME has no certificate, or one that passes.
  abbrev pub Passes : List Text → SslConfig → Type 0
  Passes hosts ssl =
      unwrap_or ssl.acme false ≡ false
      → (path : Text) → ssl.cert ≡ some path
      → check_certificate world path hosts bundle ≡ true

  abbrev pub AllPass : ClientConfig → Type 0
  AllPass config =
      ((ssl : SslConfig) → config.ssl ≡ some ssl → Passes (expected_hosts config) ssl)
      × All (λ (e : Text × SslConfig). Passes (expected_hosts config) e.1) config.ssl_ports

  check_one_iff :
      (hosts : List Text) (ssl : SslConfig) (all_ok : Bool)
      → (check_one world hosts bundle ssl all_ok ≡ true) ↔ ((all_ok ≡ true) × Passes hosts ssl)
  unfolding check_one
  check_one_iff hosts ssl all_ok = elim (Bool-cases (unwrap_or ssl.acme false)) [
    | inl acme ↦ (
      λ e. (ground (arith, e, acme), λ manual. absurd (ground (arith, acme, manual))),
      λ h. ground (arith, acme, h.0),
    )
    | inr manual ↦ elim (Option-cases ssl.cert) [
      | inl bare ↦ (
        λ e. (ground (arith, e, manual, bare), λ _ path at. absurd (ground (arith, bare, at))),
        λ h. ground (arith, manual, bare, h.0),
      )
      | inr (path, named) ↦ (
        λ e. (
          ground (arith, e, manual, named),
          λ _ p at.
              let same : path ≡ p = ground (arith, named, at) in
              subst (λ q. check_certificate world q hosts bundle ≡ true) same
                (ground (arith, e, manual, named)),
        ),
        λ h. ground (arith, manual, named, h.0, h.1 manual path named),
      )
    ]
  ]

  check_each_iff :
      (hosts : List Text) (ssl_ports : List (Text × SslConfig)) (all_ok : Bool)
      → (check_each world hosts bundle ssl_ports all_ok ≡ true)
        ↔ ((all_ok ≡ true) × All (λ (e : Text × SslConfig). Passes hosts e.1) ssl_ports)
  unfolding check_each
  check_each_iff hosts [] all_ok = (λ e. (e, tt), λ h. h.0)
  check_each_iff hosts ((key, ssl) ∷ ssl_ports) all_ok =
      let (to, from) = check_each_iff hosts ssl_ports (check_one world hosts bundle ssl all_ok) in
      let (to_one, from_one) = check_one_iff hosts ssl all_ok in
      (
        λ e. let (now, later) = to e in let (ok, one) = to_one now in (ok, (one, later)),
        λ h. from (from_one (h.0, h.1.0), h.1.1),
      )

  check_config_iff :
      (config : ClientConfig) (all_ok : Bool)
      → (check_config world bundle config all_ok ≡ true) ↔ ((all_ok ≡ true) × AllPass config)
  unfolding check_config
  check_config_iff config all_ok = elim (Option-cases config.ssl) [
    | inl bare ↦
        let (to, from) = check_each_iff (expected_hosts config) config.ssl_ports all_ok in
        rw (bare, check_config)
          (
            λ e. let (now, ports) = to e in (now, ((λ ssl at. absurd (cc)), ports)),
            λ h. from (h.0, h.1.1),
          )
    | inr (own, given) ↦
        let (to, from) =
          check_each_iff (expected_hosts config) config.ssl_ports
            (check_one world (expected_hosts config) bundle own all_ok) in
        let (to_one, from_one) = check_one_iff (expected_hosts config) own all_ok in
        rw (given, check_config)
          (
            λ e.
                let (now, ports) = to e in
                let (ok, one) = to_one now in
                (
                  ok,
                  (
                    (λ ssl at.
                        let same : own ≡ ssl = cc in
                        subst (Passes (expected_hosts config)) same one),
                    ports,
                  ),
                ),
            λ h. from (from_one (h.0, h.1.0 own refl), h.1.1),
          )
  ]

  check_from_iff :
      (configs : List ClientConfig) (all_ok : Bool)
      → (check_from world configs bundle all_ok ≡ true) ↔ ((all_ok ≡ true) × All AllPass configs)
  unfolding check_from
  check_from_iff [] all_ok = (λ e. (e, tt), λ h. h.0)
  check_from_iff (config ∷ configs) all_ok =
      let (to, from) = check_from_iff configs (check_config world bundle config all_ok) in
      let (to_one, from_one) = check_config_iff config all_ok in
      (
        λ e. let (now, later) = to e in let (ok, one) = to_one now in (ok, (one, later)),
        λ h. from (from_one (h.0, h.1.0), h.1.1),
      )

  -- The check of all configured certificates succeeds exactly when, for each configuration, each TLS
  -- section that does not use ACME and names a certificate names one that passes its check for the
  -- configuration's hosts.
  pub check_all_configured_certs_iff :
      (configs : List ClientConfig)
      → (check_all_configured_certs world configs bundle ≡ true) ↔ All AllPass configs
  unfolding check_all_configured_certs
  check_all_configured_certs_iff configs =
      let (to, from) = check_from_iff configs true in (λ e. (to e).1, λ h. from (refl, h))
