-- ===== src/Listeners/Ports.antt =====
-- The ports' loops take only steps of the proxy, and what an ACME port lets through.
use scety.Prelude.{
  refl, ◌∙◌, ◌⊎◌, inl, inr, ℕ, ◌+◌, ◌≤◌, ◌≡◌, pos, Bool, false, none, some, List, [], ◌∷◌, arith,
  count, if_cases,
}
use scety.Config.Global.{ScetyConfig}
use scety.IpLimit.{IpAddr, ip_eq}
use scety.Config.Services.{ClientConfig, SslConfig}
use scety.GlobalRouter.{SslMode, no_tls, manual, acme, Task}
use scety.Listeners.{
  accept_plain, accept_manual, Spawned, refuse, serve, handshake, serve_acme, Proxy, ip_limit,
  accept_acme, Event, AcmeEvent, Outside, accepted, accept_error, ended, tls_error, tls_stream,
  plain_loop, manual_loop, acme_loop, start_plain_port, start_manual_tls_port, start_acme_port,
  start_listen_port,
}
use scety.Listeners.Steps as Steps
use scety.Listeners.Steps.{Reach, start, next}
use scety.Listeners.Served.{served, Reach-served_le}

-- The clients of the address that an ACME port serves.
abbrev pub serves_acme : IpAddr → Spawned → Bool
serves_acme ip (refuse j) = false
serves_acme ip (serve j guard) = false
serves_acme ip (handshake j guard) = false
serves_acme ip (serve_acme none) = false
serves_acme ip (serve_acme (some j)) = ip_eq j ip

module _ (cfg : ScetyConfig) where
  plain_loop-Reach :
      (events : List Event) {p : Proxy} → Reach cfg p → Reach cfg (plain_loop cfg events p).0
  unfolding plain_loop
  plain_loop-Reach [] r = r
  plain_loop-Reach (Event.cancelled ∷ events) r = r
  plain_loop-Reach (accepted ip ∷ events) {p} r =
      plain_loop-Reach events (next r (Steps.plain p ip))
  plain_loop-Reach (accept_error ∷ events) r = plain_loop-Reach events r

  manual_loop-Reach :
      (events : List Event) {p : Proxy} → Reach cfg p → Reach cfg (manual_loop cfg events p).0
  unfolding manual_loop
  manual_loop-Reach [] r = r
  manual_loop-Reach (Event.cancelled ∷ events) r = r
  manual_loop-Reach (accepted ip ∷ events) {p} r =
      manual_loop-Reach events (next r (Steps.manual p ip))
  manual_loop-Reach (accept_error ∷ events) r = manual_loop-Reach events r

  acme_loop-Reach :
      (events : List AcmeEvent) {p : Proxy} → Reach cfg p → Reach cfg (acme_loop cfg events p).0
  unfolding acme_loop
  acme_loop-Reach [] r = r
  acme_loop-Reach (AcmeEvent.cancelled ∷ events) r = r
  acme_loop-Reach (ended ∷ events) r = r
  acme_loop-Reach (tls_error ∷ events) r = acme_loop-Reach events r
  acme_loop-Reach (tls_stream ip ∷ events) {p} r = acme_loop-Reach events (next r (Steps.acme p ip))

  -- Plain ports and ports with a certificate start no task that is served without counting.
  accept_plain-serves_acme :
      (ip j : IpAddr) (p : Proxy)
      → count (serves_acme ip) (accept_plain cfg j p).tasks ≡ count (serves_acme ip) p.tasks
  unfolding accept_plain
  accept_plain-serves_acme ip j p = ground arith

  accept_manual-serves_acme :
      (ip j : IpAddr) (p : Proxy)
      → count (serves_acme ip) (accept_manual cfg j p).tasks ≡ count (serves_acme ip) p.tasks
  unfolding accept_manual
  accept_manual-serves_acme ip j p = ground arith

  plain_loop-serves_acme :
      (ip : IpAddr) (events : List Event) (p : Proxy)
      → count (serves_acme ip) (plain_loop cfg events p).0.tasks ≡ count (serves_acme ip) p.tasks
  unfolding plain_loop
  plain_loop-serves_acme ip [] p = refl
  plain_loop-serves_acme ip (Event.cancelled ∷ events) p = refl
  plain_loop-serves_acme ip (accepted j ∷ events) p =
      plain_loop-serves_acme ip events (accept_plain cfg j p) ∙ accept_plain-serves_acme ip j p
  plain_loop-serves_acme ip (accept_error ∷ events) p = plain_loop-serves_acme ip events p

  manual_loop-serves_acme :
      (ip : IpAddr) (events : List Event) (p : Proxy)
      → count (serves_acme ip) (manual_loop cfg events p).0.tasks ≡ count (serves_acme ip) p.tasks
  unfolding manual_loop
  manual_loop-serves_acme ip [] p = refl
  manual_loop-serves_acme ip (Event.cancelled ∷ events) p = refl
  manual_loop-serves_acme ip (accepted j ∷ events) p =
      manual_loop-serves_acme ip events (accept_manual cfg j p) ∙ accept_manual-serves_acme ip j p
  manual_loop-serves_acme ip (accept_error ∷ events) p = manual_loop-serves_acme ip events p

  module _ (w : Outside) {p : Proxy} (r : Reach cfg p) where
    start_plain_port-Reach : (port : ℕ) → Reach cfg (start_plain_port cfg w port p).0
    unfolding start_plain_port
    start_plain_port-Reach port =
        if_cases (λ (s : Proxy × Bool). Reach cfg s.0) (w.binds port) _ _
          (λ _. plain_loop-Reach (w.events port) r) (λ _. r)

    start_manual_tls_port-Reach :
        (port : ℕ) (ssl : SslConfig) → Reach cfg (start_manual_tls_port cfg w port ssl p).0
    unfolding start_manual_tls_port
    start_manual_tls_port-Reach port ssl =
        if_cases (λ (s : Proxy × Bool). Reach cfg s.0) (w.loads ssl) _ _
          (λ _.
            if_cases (λ (s : Proxy × Bool). Reach cfg s.0) (w.binds port) _ _
              (λ _. manual_loop-Reach (w.events port) r) (λ _. r))
          (λ _. r)

    start_acme_port-Reach : (port : ℕ) → Reach cfg (start_acme_port cfg w port p).0
    unfolding start_acme_port
    start_acme_port-Reach port =
        if_cases (λ (s : Proxy × Bool). Reach cfg s.0) (w.binds port) _ _
          (λ _. acme_loop-Reach (w.acme_events port) r) (λ _. r)

    start_mode-Reach :
        (port : ℕ) (configs : List ClientConfig) (mode : SslMode)
        → Reach cfg
            (start_listen_port cfg w
              (record { port = port; configs = configs; ssl_mode = mode })
              p).0
    unfolding start_listen_port
    start_mode-Reach port configs no_tls = start_plain_port-Reach port
    start_mode-Reach port configs (manual ssl) = start_manual_tls_port-Reach port ssl
    start_mode-Reach port configs (acme ssl) = start_acme_port-Reach port

    start_mode-serves_acme :
        (port : ℕ) (configs : List ClientConfig) (mode : SslMode) (ip : IpAddr)
        → ((ssl : SslConfig) × (mode ≡ acme ssl))
          ⊎ (count
                (serves_acme ip)
                (start_listen_port cfg w
                  (record { port = port; configs = configs; ssl_mode = mode })
                  p).0.tasks
              ≡ count (serves_acme ip) p.tasks)
    unfolding start_listen_port start_plain_port start_manual_tls_port
    start_mode-serves_acme port configs no_tls ip = inr (
        if_cases Same (w.binds port) _ _ (λ _. plain_loop-serves_acme ip (w.events port) p)
          (λ _. refl))
      where
        Same : Proxy × Bool → Type 0
        Same s = count (serves_acme ip) s.0.tasks ≡ count (serves_acme ip) p.tasks
    start_mode-serves_acme port configs (manual ssl) ip = inr (
        if_cases Same (w.loads ssl) _ _
          (λ _.
            if_cases Same (w.binds port) _ _ (λ _. manual_loop-serves_acme ip (w.events port) p)
              (λ _. refl))
          (λ _. refl))
      where
        Same : Proxy × Bool → Type 0
        Same s = count (serves_acme ip) s.0.tasks ≡ count (serves_acme ip) p.tasks
    start_mode-serves_acme port configs (acme ssl) ip = inl (ssl, refl)

    -- If the configured limit is not negative, then after a port of any kind has started, in any
    -- reachable state, and met any events, plain ports and ports with a certificate of the
    -- configuration's own serve no address more often, all together, than the limit; and unless the
    -- port is one of ACME, no address has more connections that are served without counting than
    -- before.
    pub start_listen_port-served_le :
        (limit : ℕ) (task : Task) (ip : IpAddr)
        → ip_limit cfg ≡ pos limit
        → (served ip (start_listen_port cfg w task p).0.tasks ≤ limit)
          × (((ssl : SslConfig) × (task.ssl_mode ≡ acme ssl))
              ⊎ (count (serves_acme ip) (start_listen_port cfg w task p).0.tasks
                  ≡ count (serves_acme ip) p.tasks))
    start_listen_port-served_le limit task ip limited = (
      Reach-served_le cfg limit limited ip (start_mode-Reach task.port task.configs task.ssl_mode),
      start_mode-serves_acme task.port task.configs task.ssl_mode ip,
    )

-- The address connects.
abbrev pub connects : IpAddr → AcmeEvent → Bool
connects ip AcmeEvent.cancelled = false
connects ip ended = false
connects ip tls_error = false
connects ip (tls_stream none) = false
connects ip (tls_stream (some j)) = ip_eq j ip

-- The events before the port is cancelled or its stream ends.
abbrev pub until_end : List AcmeEvent → List AcmeEvent
until_end [] = []
until_end (AcmeEvent.cancelled ∷ events) = []
until_end (ended ∷ events) = []
until_end (tls_error ∷ events) = tls_error ∷ until_end events
until_end (tls_stream ip ∷ events) = tls_stream ip ∷ until_end events

module _ (cfg : ScetyConfig) (ip : IpAddr) where
  acme_loop-served :
      (events : List AcmeEvent) (p : Proxy)
      → count (serves_acme ip) (acme_loop cfg events p).0.tasks
        ≡ count (connects ip) (until_end events) + count (serves_acme ip) p.tasks
  unfolding acme_loop accept_acme
  acme_loop-served [] p = omega arith
  acme_loop-served (AcmeEvent.cancelled ∷ events) p = omega arith
  acme_loop-served (ended ∷ events) p = omega arith
  acme_loop-served (tls_error ∷ events) p = acme_loop-served events p
  acme_loop-served (tls_stream none ∷ events) p = acme_loop-served events (accept_acme none p)
  acme_loop-served (tls_stream (some j) ∷ events) p =
      let rest = acme_loop-served events (accept_acme (some j) p) in ground (arith, rest)

  -- Whatever limit is configured, and in any state that the ports can reach: the loop of an ACME port
  -- serves an address as many connections at a time, besides those that it served before, as the
  -- address makes until the port is cancelled or its stream ends, and the state that it leaves can be
  -- reached.
  pub acme_loop-unlimited :
      (events : List AcmeEvent) {p : Proxy}
      → Reach cfg p
      → Reach cfg (acme_loop cfg events p).0
        × (count (serves_acme ip) (acme_loop cfg events p).0.tasks
            ≡ count (connects ip) (until_end events) + count (serves_acme ip) p.tasks)
  acme_loop-unlimited events {p} r = (acme_loop-Reach cfg events r, acme_loop-served events p)
