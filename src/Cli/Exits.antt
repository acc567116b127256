-- ===== src/Cli/Exits.antt =====
-- What makes the whole proxy exit at its start.
use scety.Prelude.{
  ◌≡◌, refl, ◌≢◌, ◌⊎◌, inl, inr, Bool, true, false, ◌||◌, Option, none, List, [], ◌∷◌, is_empty,
  unwrap_or, All, Any, here, there, arith,
}
use scety.Text.{Text}
use scety.Config.Services.{ClientConfig, SslConfig}
use scety.Config.Global.{Duration, ScetyConfig}
use scety.Config.Global.File.{ok, default_config}
use scety.GlobalRouter.{manual, Task, start_listen, unique_ports, start_each}
use scety.Listeners.{Proxy, Outside, start_listen_port, start_manual_tls_port}
use scety.Cli.{World, exit}
use scety.Cli.Run.{Setting, ended, start_all, booted, listen, on_config, run}

no_ports :
    (configs : List ClientConfig)
    → All (λ (c : ClientConfig). c.listen_port ≡ none) configs
    → unique_ports configs ≡ []
unfolding unique_ports
no_ports [] a = refl
no_ports (c ∷ configs) a = rw (a.0) (no_ports configs a.1)

-- A port with a certificate that cannot be loaded.
abbrev pub Broken : Outside → Task → Type 0
Broken w task = (ssl : SslConfig) × (task.ssl_mode ≡ manual ssl) × (w.loads ssl ≡ false)

Broken-returns :
    (cfg : ScetyConfig) (w : Outside) (task : Task) (p : Proxy)
    → Broken w task
    → (start_listen_port cfg w task p).1 ≡ true
unfolding start_listen_port start_manual_tls_port
Broken-returns cfg w task p (ssl, e, broken) = rw (start_listen_port, e, broken) refl

start_all-died :
    (cfg : ScetyConfig) (w : Outside) (tasks : List Task) (p : Proxy)
    → Any (Broken w) tasks
    → (start_all cfg w tasks p).1 ≡ true
unfolding start_all
start_all-died cfg w (task ∷ tasks) p (here b) = rw (Broken-returns cfg w task p b) refl
start_all-died cfg w (task ∷ tasks) p (there a) =
    ground (arith, start_all-died cfg w tasks (start_listen_port cfg w task p).0 a)
start_all-died cfg w [] p a = elim a [ ]

-- The listeners that make the process exit: none at all, or one that has returned.
over : ScetyConfig → Setting → Bool
over cfg s =
    is_empty (start_listen s.all_configs)
    || (start_all cfg s.outside (start_listen s.all_configs) booted).1

over-true :
    (cfg : ScetyConfig) (s : Setting)
    → All (λ (c : ClientConfig). c.listen_port ≡ none) s.all_configs
      ⊎ Any (Broken s.outside) (start_listen s.all_configs)
    → over cfg s ≡ true
unfolding over start_listen start_each
over-true cfg s (inl closed) = rw (no_ports s.all_configs closed) refl
over-true cfg s (inr broken) =
    ground (arith, start_all-died cfg s.outside (start_listen s.all_configs) booted broken)

listen-exits :
    (cfg : ScetyConfig) (s : Setting)
    → s.interrupted ≡ false
    → over cfg s ≡ true
    → listen cfg s ≡ ended (exit 1)
unfolding listen over
listen-exits cfg s calm o = ground (arith, calm, o)

is_empty-false : (configs : List ClientConfig) → configs ≢ [] → is_empty configs ≡ false
is_empty-false [] h = absurd (h refl)
is_empty-false (c ∷ configs) h = refl

on_config-exits :
    (cfg : ScetyConfig) (s : Setting)
    → s.all_configs ≢ []
    → s.interrupted ≡ false
    → over cfg s ≡ true
    → on_config cfg s ≡ ended (exit 1)
unfolding on_config
on_config-exits cfg s full calm o =
    ground (arith, is_empty-false s.all_configs full, listen-exits cfg s calm o)

module _ (parse_duration : Text → Option Duration) (w : World) (default_text : Text) where
  -- Under systemd, with a main configuration that loads and at least one service, and no Ctrl-C
  -- first: if no service has `listen_port`, even when each has `listens_port`, or if a listener's
  -- certificate cannot be loaded, then the process exits with 1.
  pub run-exits :
      (s : Setting) (loaded : Option ScetyConfig)
      → s.is_systemd ≡ true
      → s.scety_config ≡ ok loaded
      → s.all_configs ≢ []
      → s.interrupted ≡ false
      → All (λ (c : ClientConfig). c.listen_port ≡ none) s.all_configs
        ⊎ Any (Broken s.outside) (start_listen s.all_configs)
      → run parse_duration w default_text s ≡ ended (exit 1)
  unfolding run
  run-exits s loaded systemd e full calm why =
      let cfg : ScetyConfig = unwrap_or loaded (default_config parse_duration) in
      let exits = on_config-exits cfg s full calm (over-true cfg s why) in
      ground (arith, systemd, e, exits)
