-- ===== src/CertCheck.antt =====
-- network/cert_check.rs: the checks of the configured certificates. Files, the parsers of PEM and
-- X.509 and the verification of the chain are the record `Certificates`; times are in seconds, as signed
-- integers.
use scety.Prelude.{
  ℕ, ℤ, pos, negsuc, ◌-◌, ◌*◌, ◌+◌, Bool, true, false, not, ◌&&◌, Option, none, some, List, [], ◌∷◌,
  ltb, leb, if◌then◌else◌, any, all, is_empty, unwrap_or, map,
}
use scety.Text.{Text, codes, text_eq, strip_prefix, split_once, eq_ignore_ascii_case}
use scety.Text.Utf8.{Bytes}
use scety.Config.Services.{ClientConfig, SslConfig}
pub mod Checks

-- What a parsed certificate says.
pub record Certificate : Type 0 where
  pub not_after : ℤ
  pub issuer : Text
  pub subject : Text
  pub dns_sans : List Text

pub record Certificates : Type 0 where
  pub read_file : Text → Option Bytes
  pub pem_blocks : Bytes → Option (List Bytes)
  pub from_der : Bytes → Option Certificate
  pub now : ℤ
  pub trust_chain : List Bytes → List Text → Option Text → Bool

abbrev pub day : ℕ
day = 86_400

abbrev pub expiry_warning_days : ℕ
expiry_warning_days = 14

unfoldable pub expected_hosts : ClientConfig → List Text
expected_hosts config = elim config.host [
  | some host ↦ host ∷ []
  | none ↦ unwrap_or config.hosts []
]

unfoldable pub domain_matches : Text → Text → Bool
unfolding strip_prefix split_once eq_ignore_ascii_case
domain_matches san host = elim (strip_prefix (codes "*.") san) [
  | some rest ↦ elim (split_once b'.' host) [
    | some (_, remainder) ↦ eq_ignore_ascii_case remainder rest
    | none ↦ false
  ]
  | none ↦ eq_ignore_ascii_case san host
]

-- `days_left <= EXPIRY_WARNING_DAYS` on the whole days that are left, and the expiry before it.
abbrev lasts_from : ℕ → ℕ → Bool
lasts_from now not_after =
    if ltb not_after now then false else leb ((expiry_warning_days + 1) * day) (not_after - now)

unfoldable pub lasts : ℤ → ℤ → Bool
lasts (pos now) (pos not_after) = lasts_from now not_after
lasts (pos now) (negsuc not_after) = false
lasts (negsuc now) (pos not_after) = lasts_from 0 (not_after + now + 1)
lasts (negsuc now) (negsuc not_after) = lasts_from not_after now

-- `check_certificate` from `let mut ok = true` on.
unfoldable pub check_leaf : Certificates → List Bytes → Certificate → List Text → Option Text → Bool
unfolding lasts domain_matches text_eq
check_leaf world der_blocks cert hosts bundle =
    lasts world.now cert.not_after
    && not (text_eq cert.issuer cert.subject)
    && not (is_empty cert.dns_sans)
    && any (λ h. any (λ s. domain_matches s h) cert.dns_sans) hosts
    && world.trust_chain der_blocks hosts bundle

unfoldable pub check_certificate : Certificates → Text → List Text → Option Text → Bool
unfolding check_leaf
check_certificate world cert_path hosts bundle = elim (world.read_file cert_path) [
  | none ↦ false
  | some bytes ↦ elim (world.pem_blocks bytes) [
    | none ↦ false
    | some [] ↦ false
    | some (leaf ∷ more) ↦ elim (world.from_der leaf) [
      | none ↦ false
      | some cert ↦ check_leaf world (leaf ∷ more) cert hosts bundle
    ]
  ]
]

-- The closure `check_one`: the flag `all_ok` after it.
unfoldable pub check_one : Certificates → List Text → Option Text → SslConfig → Bool → Bool
unfolding check_certificate
check_one world hosts bundle ssl all_ok =
    if unwrap_or ssl.acme false then all_ok else elim ssl.cert [
      | none ↦ all_ok
      | some cert_path ↦
          if not (check_certificate world cert_path hosts bundle) then false else all_ok
    ]

-- `for ssl in config.ssl_ports.values()`
unfoldable pub check_each :
    Certificates → List Text → Option Text → List (Text × SslConfig) → Bool → Bool
unfolding check_one
check_each world hosts bundle [] all_ok = all_ok
check_each world hosts bundle ((key, ssl) ∷ ssl_ports) all_ok =
    check_each world hosts bundle ssl_ports (check_one world hosts bundle ssl all_ok)

unfoldable pub check_config : Certificates → Option Text → ClientConfig → Bool → Bool
unfolding expected_hosts check_one check_each
check_config world bundle config all_ok =
    let hosts = expected_hosts config in
    check_each world hosts bundle config.ssl_ports
      (elim config.ssl [ none ↦ all_ok | some ssl ↦ check_one world hosts bundle ssl all_ok ])

unfoldable pub check_from : Certificates → List ClientConfig → Option Text → Bool → Bool
unfolding check_config
check_from world [] bundle all_ok = all_ok
check_from world (config ∷ configs) bundle all_ok =
    check_from world configs bundle (check_config world bundle config all_ok)

unfoldable pub check_all_configured_certs : Certificates → List ClientConfig → Option Text → Bool
unfolding check_from
check_all_configured_certs world configs bundle = check_from world configs bundle true
