-- ===== src/GlobalRouter.antt =====
-- network/global_router.rs: the listeners that are started, one per port, and their TLS mode. The
-- iteration order of the set of ports is the order of the configurations.
use scety.Prelude.{
  ℕ, Bool, true, false, not, Option, none, some, List, [], ◌∷◌, ◌++◌, ◌==◌, if◌then◌else◌, any,
  unwrap_or,
}
use scety.Text.{Text, codes}
use scety.Text.Decimal.{to_string}
use scety.Map
use scety.Map.{Map}
use scety.Config.Services.{ClientConfig, SslConfig}
pub mod Ports

-- `network::listeners::SslMode`
pub data SslMode : Type 0 where
  no_tls : SslMode
  manual : SslConfig → SslMode
  acme : SslConfig → SslMode

-- The arguments of `start_listen_port` in a spawned task.
pub record Task : Type 0 where
  pub port : ℕ
  pub configs : List ClientConfig
  pub ssl_mode : SslMode

unfoldable pub resolve_mode : SslConfig → SslMode
resolve_mode ssl = if unwrap_or ssl.acme false then acme ssl else manual ssl

-- `c.ssl.clone().or_else(|| c.ssl_ports.get(&ssl_key).cloned())`
unfoldable pub own_ssl : Text → ClientConfig → Option SslConfig
unfolding Map.get
own_ssl ssl_key c = elim c.ssl [ some ssl ↦ some ssl | none ↦ Map.get ssl_key c.ssl_ports ]

-- `configs.iter().find_map(..)`
unfoldable pub find_ssl : Text → List ClientConfig → Option SslConfig
unfolding own_ssl
find_ssl ssl_key [] = none
find_ssl ssl_key (c ∷ configs) =
    let rest = find_ssl ssl_key configs in
    elim (own_ssl ssl_key c) [ some ssl ↦ some ssl | none ↦ rest ]

unfoldable pub resolve_ssl_mode : List ClientConfig → ℕ → SslMode
unfolding find_ssl to_string resolve_mode
resolve_ssl_mode configs port = elim (find_ssl (codes "ssl_" ++ to_string port) configs) [
  | none ↦ no_tls
  | some ssl ↦ resolve_mode ssl
]

abbrev pub listens_on : ℕ → ClientConfig → Bool
listens_on port config = elim config.listen_port [ none ↦ false | some p ↦ p == port ]

-- `filter(|config| config.listen_port == Some(port))`
unfoldable pub configs_for : ℕ → List ClientConfig → List ClientConfig
configs_for port [] = []
configs_for port (config ∷ configs) =
    let rest = configs_for port configs in if listens_on port config then config ∷ rest else rest

-- `filter_map(|config| config.listen_port).collect::<HashSet<_>>()`
unfoldable pub unique_ports : List ClientConfig → List ℕ
unique_ports [] = []
unique_ports (config ∷ configs) =
    let rest = unique_ports configs in
    elim config.listen_port [
      | none ↦ rest
      | some port ↦ if any (λ p. p == port) rest then rest else port ∷ rest
    ]

unfoldable pub start_each : List ClientConfig → List ℕ → List Task
unfolding configs_for resolve_ssl_mode
start_each configs [] = []
start_each configs (port ∷ ports) =
    record {
      port = port;
      configs = configs_for port configs;
      ssl_mode = resolve_ssl_mode (configs_for port configs) port;
    }
    ∷ start_each configs ports

unfoldable pub start_listen : List ClientConfig → List Task
unfolding start_each unique_ports
start_listen configs = start_each configs (unique_ports configs)
