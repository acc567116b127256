-- ===== src/GlobalRouter/Ports.antt =====
-- Each port of a configuration is listened on by exactly one task.
use scety.Prelude.{
  ℕ, ◌≡◌, refl, ap, sym, subst, ◌≢◌, ◌⊎◌, inl, inr, Bool, true, false, Option, none, some, List, [],
  ◌∷◌, ◌++◌, arith, ◌==◌, if◌then◌else◌, any, count, unwrap_or, Bool-cases, Option-cases, ==_iff,
  ◌∙◌, Any, here, there, All, if_cases,
}
use scety.Text.{Text, codes}
use scety.Text.Decimal.{to_string}
use scety.Map
use scety.Config.Services.{ClientConfig, SslConfig}
use scety.GlobalRouter.{
  SslMode, no_tls, manual, acme, Task, resolve_mode, own_ssl, find_ssl, resolve_ssl_mode,
  listens_on, configs_for, unique_ports, start_each, start_listen,
}

count-any :
    (port : ℕ) (ports : List ℕ)
    → any (λ p. p == port) ports ≡ false
    → count (λ p. p == port) ports ≡ 0
count-any port [] e = refl
count-any port (p ∷ ports) e = ground (arith, count-any port ports)

any-count :
    (port : ℕ) (ports : List ℕ)
    → any (λ p. p == port) ports ≡ true
    → count (λ p. p == port) ports ≢ 0
any-count port [] e = absurd (cc)
any-count port (p ∷ ports) e = λ z. ground (arith, any-count port ports)

unique_ports-count :
    (port : ℕ) (configs : List ClientConfig)
    → count (λ p. p == port) (unique_ports configs)
      ≡ (if any (listens_on port) configs then 1 else 0)
unfolding unique_ports
unique_ports-count port [] = refl
unique_ports-count port (config ∷ configs) = elim (Option-cases config.listen_port) [
  | inl closed ↦ ground (arith, closed, unique_ports-count port configs)
  | inr (p, given) ↦ elim (Bool-cases (p == port)) [
    | inl same ↦ ground (
      arith,
      given,
      same,
      ==_iff p port,
      unique_ports-count port configs,
      count-any port (unique_ports configs),
      any-count port (unique_ports configs),
    )
    | inr other ↦ ground (arith, given, other, unique_ports-count port configs)
  ]
]

start_each-count :
    (port : ℕ) (configs : List ClientConfig) (ports : List ℕ)
    → count (λ (t : Task). t.port == port) (start_each configs ports) ≡ count (λ p. p == port) ports
unfolding start_each
start_each-count port configs [] = refl
start_each-count port configs (p ∷ ports) = ground (arith, start_each-count port configs ports)

listens_on-port :
    (port : ℕ) (config : ClientConfig)
    → listens_on port config ≡ true
    → config.listen_port ≡ some port
listens_on-port port config on = elim (Option-cases config.listen_port) [
  | inl closed ↦ absurd (ground (arith, on, closed))
  | inr (p, given) ↦ given ∙ ap some (ground (arith, on, given, ==_iff p port))
]

listens_on-other :
    (port : ℕ) (config : ClientConfig)
    → listens_on port config ≡ false
    → config.listen_port ≢ some port
listens_on-other port config off = λ e. ground (arith, e, off, ==_iff port port)

-- Some configuration listens on the port, or none does.
listens_on-cases :
    (port : ℕ) (configs : List ClientConfig)
    → ((any (listens_on port) configs ≡ true)
        × Any (λ (c : ClientConfig). c.listen_port ≡ some port) configs)
      ⊎ ((any (listens_on port) configs ≡ false)
          × All (λ (c : ClientConfig). c.listen_port ≢ some port) configs)
listens_on-cases port [] = inr (refl, tt)
listens_on-cases port (config ∷ configs) = elim (Bool-cases (listens_on port config)) [
  | inl on ↦ inl (ground (arith, on), here (listens_on-port port config on))
  | inr off ↦ elim (listens_on-cases port configs) [
    | inl (some_listen, there_is) ↦ inl (ground (arith, off, some_listen), there there_is)
    | inr (none_listen, none_is) ↦
        inr (ground (arith, off, none_listen), (listens_on-other port config off, none_is))
  ]
]

-- The second list has the configurations of the first that listen on the port, in their order.
pub data Picks (port : ℕ) : List ClientConfig → List ClientConfig → Type 0 where
  done : Picks port [] []
  takes :
      {c : ClientConfig} {configs picked : List ClientConfig}
      → c.listen_port ≡ some port
      → Picks port configs picked
      → Picks port (c ∷ configs) (c ∷ picked)
  skips :
      {c : ClientConfig} {configs picked : List ClientConfig}
      → c.listen_port ≢ some port
      → Picks port configs picked
      → Picks port (c ∷ configs) picked

configs_for-Picks :
    (port : ℕ) (configs : List ClientConfig) → Picks port configs (configs_for port configs)
unfolding configs_for
configs_for-Picks port [] = done
configs_for-Picks port (config ∷ configs) =
    if_cases (Picks port (config ∷ configs)) (listens_on port config)
      (config ∷ configs_for port configs) (configs_for port configs)
      (λ on. takes (listens_on-port port config on) (configs_for-Picks port configs))
      (λ off. skips (listens_on-other port config off) (configs_for-Picks port configs))

-- The entry of `ssl_ports` for a port.
abbrev ssl_key : ℕ → Text
ssl_key port = codes "ssl_" ++ to_string port

-- The certificate of the first configuration that has one, of its own or for the port.
pub data FirstSsl (port : ℕ) : List ClientConfig → Option SslConfig → Type 0 where
  nobody : FirstSsl port [] none
  own :
      {c : ClientConfig} {configs : List ClientConfig} {ssl : SslConfig}
      → c.ssl ≡ some ssl
      → FirstSsl port (c ∷ configs) (some ssl)
  of_port :
      {c : ClientConfig} {configs : List ClientConfig} {ssl : SslConfig}
      → c.ssl ≡ none
      → Map.get (ssl_key port) c.ssl_ports ≡ some ssl
      → FirstSsl port (c ∷ configs) (some ssl)
  later :
      {c : ClientConfig} {configs : List ClientConfig} {found : Option SslConfig}
      → c.ssl ≡ none
      → Map.get (ssl_key port) c.ssl_ports ≡ none
      → FirstSsl port configs found
      → FirstSsl port (c ∷ configs) found

find_ssl-FirstSsl :
    (port : ℕ) (configs : List ClientConfig)
    → FirstSsl port configs (find_ssl (ssl_key port) configs)
unfolding find_ssl own_ssl
find_ssl-FirstSsl port [] = nobody
find_ssl-FirstSsl port (c ∷ configs) = elim (Option-cases c.ssl) [
  | inr (ssl, has) ↦
      let e : find_ssl (ssl_key port) (c ∷ configs) ≡ some ssl = ground (arith, has) in
      subst (FirstSsl port (c ∷ configs)) (sym e) (own has)
  | inl bare ↦ elim (Option-cases (Map.get (ssl_key port) c.ssl_ports)) [
    | inr (ssl, listed) ↦
        let e : find_ssl (ssl_key port) (c ∷ configs) ≡ some ssl = ground (arith, bare, listed) in
        subst (FirstSsl port (c ∷ configs)) (sym e) (of_port bare listed)
    | inl unlisted ↦
        let e : find_ssl (ssl_key port) (c ∷ configs) ≡ find_ssl (ssl_key port) configs =
          ground (arith, bare, unlisted) in
        subst (FirstSsl port (c ∷ configs)) (sym e)
          (later bare unlisted (find_ssl-FirstSsl port configs))
  ]
]

-- A certificate is of ACME if it says so.
pub data ModeOf : Option SslConfig → SslMode → Type 0 where
  plain : ModeOf none no_tls
  by_acme : {ssl : SslConfig} → ssl.acme ≡ some true → ModeOf (some ssl) (acme ssl)
  by_hand : {ssl : SslConfig} → ssl.acme ≢ some true → ModeOf (some ssl) (manual ssl)

resolve_mode-ModeOf : (ssl : SslConfig) → ModeOf (some ssl) (resolve_mode ssl)
unfolding resolve_mode
resolve_mode-ModeOf ssl =
    if_cases (ModeOf (some ssl)) (unwrap_or ssl.acme false) (acme ssl) (manual ssl)
      (λ yes. by_acme (ground (arith, yes))) (λ no. by_hand (λ e. ground (arith, no, e)))

abbrev pub Mode : ℕ → List ClientConfig → SslMode → Type 0
Mode port configs mode =
    (found : Option SslConfig) × FirstSsl port configs found × ModeOf found mode

resolve_ssl_mode-Mode :
    (port : ℕ) (configs : List ClientConfig) → Mode port configs (resolve_ssl_mode configs port)
unfolding resolve_ssl_mode
resolve_ssl_mode-Mode port configs = (
  find_ssl (ssl_key port) configs,
  find_ssl-FirstSsl port configs,
  mode_of (find_ssl (ssl_key port) configs),
)
  where
    mode_of :
        (found : Option SslConfig)
        → ModeOf found (elim found [ none ↦ no_tls | some ssl ↦ resolve_mode ssl ])
    mode_of none = plain
    mode_of (some ssl) = resolve_mode-ModeOf ssl

start_each-All :
    (configs : List ClientConfig) (ports : List ℕ)
    → All
        (λ (t : Task). Picks t.port configs t.configs × Mode t.port t.configs t.ssl_mode)
        (start_each configs ports)
unfolding start_each
start_each-All configs [] = tt
start_each-All configs (p ∷ ports) = (
  (configs_for-Picks p configs, resolve_ssl_mode-Mode p (configs_for p configs)),
  start_each-All configs ports,
)

-- Exactly one task is started for each port that some configuration listens on, and none for any
-- other. A task gets the configurations that listen on its port, all of them and in their order. Its
-- TLS mode comes from the first of them that has a certificate, of its own or for the port: ACME if
-- this asks for it, the certificate if not, and no TLS if none has one.
pub start_listen_lem :
    (configs : List ClientConfig)
    → ((port : ℕ)
        → ((count (λ (t : Task). t.port == port) (start_listen configs) ≡ 1)
            × Any (λ (c : ClientConfig). c.listen_port ≡ some port) configs)
          ⊎ ((count (λ (t : Task). t.port == port) (start_listen configs) ≡ 0)
              × All (λ (c : ClientConfig). c.listen_port ≢ some port) configs))
      × All
          (λ (t : Task). Picks t.port configs t.configs × Mode t.port t.configs t.ssl_mode)
          (start_listen configs)
unfolding start_listen
start_listen_lem configs = (λ port. tasks port, start_each-All configs (unique_ports configs))
  where
    counted :
        (port : ℕ) (b : Bool)
        → any (listens_on port) configs ≡ b
        → count (λ (t : Task). t.port == port) (start_each configs (unique_ports configs))
          ≡ (if b then 1 else 0)
    counted port b e =
        start_each-count port configs (unique_ports configs)
        ∙ unique_ports-count port configs
        ∙ ap (λ x. if x then 1 else 0) e

    tasks :
        (port : ℕ)
        → ((count (λ (t : Task). t.port == port) (start_each configs (unique_ports configs)) ≡ 1)
            × Any (λ (c : ClientConfig). c.listen_port ≡ some port) configs)
          ⊎ ((count (λ (t : Task). t.port == port) (start_each configs (unique_ports configs)) ≡ 0)
              × All (λ (c : ClientConfig). c.listen_port ≢ some port) configs)
    tasks port = elim (listens_on-cases port configs) [
      | inl (some_listen, there_is) ↦ inl (counted port true some_listen, there_is)
      | inr (none_listen, none_is) ↦ inr (counted port false none_listen, none_is)
    ]
