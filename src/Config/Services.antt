-- ===== src/Config/Services.antt =====
-- config/get_services_config.rs: the configuration of a service and `validate_config`. An error
-- message is a constructor with what the message names.
use scety.Prelude.{
  ℕ, Bool, true, false, not, ◌||◌, Option, none, some, List, [], ◌∷◌, ◌++◌, ◌==◌, if◌then◌else◌,
  any, unwrap_or, is_none,
}
use scety.Text.{Text, codes, strip_prefix}
use scety.Text.Decimal.{to_string, parse_u16}
use scety.Map
use scety.Map.{Map}
pub mod Valid
pub mod Files

pub record UpstreamConfig : Type 0 where
  pub port : Option ℕ
  pub ports : Option (List ℕ)
  pub service_timeout : Option Text

pub record SslConfig : Type 0 where
  pub cert : Option Text
  pub key : Option Text
  pub acme : Option Bool
  pub acme_email : Option Text
  pub acme_domains : Option (List Text)
  pub acme_cache : Option Text

pub record HeadersConfig : Type 0 where
  pub upstream : Option (Map Text)
  pub response : Option (Map Text)

pub record ClientConfig : Type 0 where
  pub mode : Text
  pub host : Option Text
  pub hosts : Option (List Text)
  pub listen_port : Option ℕ
  pub listens_port : Option (List ℕ)
  pub upstream : Option UpstreamConfig
  pub upstreams : Map UpstreamConfig
  pub ssl : Option SslConfig
  pub ssl_ports : Map SslConfig
  pub headers : Option HeadersConfig

pub data ConfigError : Type 0 where
  missing_host both_hosts missing_listen_port both_listen_ports missing_upstream : ConfigError
  missing_port both_ports acme_without_email acme_without_domains missing_certificate : ConfigError
  missing_upstream_section : Text → ℕ → ConfigError
  unlisted_upstream : Text → ℕ → ConfigError
  unlisted_ssl : Text → ℕ → ConfigError
  in_section : Text → ConfigError → ConfigError

-- `Result<(), String>`
pub data Checked : Type 0 where
  ok : Checked
  err : ConfigError → Checked

-- `?` between two checks.
infixl 5 ◌>>◌
abbrev pub ◌>>◌ : Checked → Checked → Checked
ok >> next = next
err e >> next = err e

-- `.map_err(|e| format!("[{}]: {}", key, e))`
abbrev pub in_key : Text → Checked → Checked
in_key key ok = ok
in_key key (err e) = err (in_section key e)

unfoldable pub check_hosts : Option Text → Option (List Text) → Checked
check_hosts none none = err missing_host
check_hosts (some _) (some _) = err both_hosts
check_hosts none (some _) = ok
check_hosts (some _) none = ok

unfoldable pub check_listen : Option ℕ → Option (List ℕ) → Checked
check_listen none none = err missing_listen_port
check_listen (some _) (some _) = err both_listen_ports
check_listen none (some _) = ok
check_listen (some _) none = ok

-- `ports.contains(&port)`
abbrev pub contains : List ℕ → ℕ → Bool
contains ports port = any (λ p. p == port) ports

-- Each listed port has its section.
unfoldable pub check_sections : Map UpstreamConfig → List ℕ → Checked
unfolding Map.contains_key to_string
check_sections upstreams [] = ok
check_sections upstreams (port ∷ ports) =
    let key = codes "upstream_" ++ to_string port in
    if not (Map.contains_key key upstreams)
    then err (missing_upstream_section key port)
    else check_sections upstreams ports

-- The port that a section's key names: `key.strip_prefix(..)` and `parse::<u16>()`.
unfoldable pub section_port : Text → Text → Option ℕ
unfolding strip_prefix parse_u16
section_port name key = elim (strip_prefix name key) [ none ↦ none | some s ↦ parse_u16 s ]

-- Each section that names a port names a listed one; `error` is the message for one that does not.
unfoldable pub check_keys : (Text → ℕ → ConfigError) → Text → List ℕ → List Text → Checked
unfolding section_port
check_keys error name ports [] = ok
check_keys error name ports (key ∷ keys) =
    let rest = check_keys error name ports keys in
    elim (section_port name key) [
      | none ↦ rest
      | some port ↦ if not (contains ports port) then err (error key port) else rest
    ]

unfoldable pub check_ports : Option (List ℕ) → Option UpstreamConfig → Map UpstreamConfig → Checked
unfolding check_sections check_keys
check_ports (some ports) upstream upstreams =
    check_sections upstreams ports
    >> check_keys unlisted_upstream (codes "upstream_") ports (Map.keys upstreams)
check_ports none none upstreams = err missing_upstream
check_ports none (some _) upstreams = ok

unfoldable pub check_exactly_one : Option ℕ → Option (List ℕ) → Checked
check_exactly_one none none = err missing_port
check_exactly_one (some _) (some _) = err both_ports
check_exactly_one none (some _) = ok
check_exactly_one (some _) none = ok

-- The closure `check_upstream`.
unfoldable pub check_upstream : UpstreamConfig → Checked
unfolding check_exactly_one
check_upstream u = check_exactly_one u.port u.ports

-- The closure `check_ssl`; `ssl.acme.unwrap_or(false)` is the test.
unfoldable pub check_ssl : SslConfig → Checked
check_ssl ssl =
    if unwrap_or ssl.acme false
    then (if is_none ssl.acme_email
        then err acme_without_email
        else if is_none ssl.acme_domains
        then err acme_without_domains
        else ok)
    else if is_none ssl.cert || is_none ssl.key
    then err missing_certificate
    else ok

-- `if let Some(x) = option { check(x)?; }`
unfoldable pub check_option {ℓ} : {A : Type ℓ} → (A → Checked) → Option A → Checked
check_option check none = ok
check_option check (some a) = check a

-- `for (key, x) in map { check(x).map_err(..)?; }`
unfoldable pub check_entries {ℓ} : {A : Type ℓ} → (A → Checked) → Map A → Checked
check_entries check [] = ok
check_entries check ((key, a) ∷ m) = in_key key (check a) >> check_entries check m

unfoldable pub validate_config : ClientConfig → Checked
unfolding check_hosts check_listen check_ports check_upstream check_ssl check_option check_entries
    check_keys
validate_config config =
    check_hosts config.host config.hosts
    >> check_listen config.listen_port config.listens_port
    >> check_ports config.listens_port config.upstream config.upstreams
    >> check_option check_upstream config.upstream
    >> check_entries check_upstream config.upstreams
    >> check_option
        (λ ports. check_keys unlisted_ssl (codes "ssl_") ports (Map.keys config.ssl_ports))
        config.listens_port
    >> check_option check_ssl config.ssl
    >> check_entries check_ssl config.ssl_ports
