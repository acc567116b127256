-- ===== src/Config/Global.antt =====
-- config/get_scety_config.rs: the global settings, `ScetyConfig::new` with its timeouts and
-- `host_exceeds_label_limit`. `humantime::parse_duration` is a parameter.
use scety.Prelude.{
  ℕ, ◌*◌, ℤ, pos, negsuc, Bool, true, false, Option, none, some, List, [], ltb, if◌then◌else◌,
  unwrap_or, length,
}
use scety.Text.{Text, codes, text_eq, split, trim}
use scety.Map.{Map}
pub mod Timeouts
pub mod File

-- A `Duration` in nanoseconds.
abbrev pub Duration : Type 0
Duration = ℕ

abbrev pub from_secs : ℕ → Duration
from_secs s = s * 1_000_000_000

abbrev pub default_timeout : Duration
default_timeout = from_secs 5

pub record TlsSection : Type 0 where
  pub trusted_ca_bundle : Option Text

pub record GlobalHeadersSection : Type 0 where
  pub upstream : Option (Map Text)
  pub response : Option (Map Text)

pub record LimitationSection : Type 0 where
  pub ip_limitation : Option ℤ
  pub max_host_labels : Option ℤ
  pub client_headers_timeout : Option Text
  pub client_body_timeout : Option Text
  pub client_full_timeout : Option Text

pub record LimitBuffersSection : Type 0 where
  pub client_header : Option ℤ

pub record ScetyConfig : Type 0 where
  pub ip_limitation : Option ℤ
  pub max_host_labels : Option ℤ
  pub client_headers_timeout : Option Duration
  pub client_body_timeout : Option Duration
  pub client_full_timeout : Option Duration
  pub client_use_full_timeout : Bool
  pub client_header_buffer : Option ℤ
  pub trusted_ca_bundle : Option Text
  pub global_upstream_headers : Map Text
  pub global_response_headers : Map Text

-- `Option::flatten`
abbrev pub flatten : Option (Option Duration) → Option Duration
flatten none = none
flatten (some o) = o

-- The `match` over the three timeouts: headers, body, and whether the full timeout is in use.
unfoldable pub choose_timeouts :
    Option (Option Duration)
    → Option (Option Duration)
    → Option (Option Duration)
    → Option Duration × Option Duration × Bool
choose_timeouts (some h) (some b) full = (h, b, false)
choose_timeouts (some h) none full = (h, some default_timeout, false)
choose_timeouts none (some b) full = (some default_timeout, b, false)
choose_timeouts none none (some f) = (f, f, true)
choose_timeouts none none none = (some default_timeout, some default_timeout, false)

-- `ScetyConfig::host_exceeds_label_limit`
unfoldable pub exceeds : Option ℤ → Text → Bool
unfolding split
exceeds none host = false
exceeds (some (negsuc n)) host = false
exceeds (some (pos limit)) host = ltb limit (length (split b'.' host))

unfoldable pub host_exceeds_label_limit : ScetyConfig → Text → Bool
unfolding exceeds
host_exceeds_label_limit c host = exceeds c.max_host_labels host

module _ (parse_duration : Text → Option Duration) where
  -- `"-1"` switches a timeout off, and a text that is no duration means five seconds.
  unfoldable pub parse_optional_timeout : Option Text → Option (Option Duration)
  unfolding trim text_eq
  parse_optional_timeout none = none
  parse_optional_timeout (some raw) =
      if text_eq (trim raw) (codes "-1")
      then some none
      else some (some (unwrap_or (parse_duration (trim raw)) default_timeout))

  unfoldable pub new :
      LimitationSection → LimitBuffersSection → TlsSection → GlobalHeadersSection → ScetyConfig
  unfolding parse_optional_timeout choose_timeouts
  new limitation limit_buffers tls headers =
      let headers_raw = parse_optional_timeout limitation.client_headers_timeout in
      let body_raw = parse_optional_timeout limitation.client_body_timeout in
      let full_raw = parse_optional_timeout limitation.client_full_timeout in
      let (final_headers, final_body, use_full_timeout) =
        choose_timeouts headers_raw body_raw full_raw in
      record {
        ip_limitation = some (unwrap_or limitation.ip_limitation (pos 20));
        max_host_labels = some (unwrap_or limitation.max_host_labels (pos 20));
        client_headers_timeout = final_headers;
        client_body_timeout = final_body;
        client_full_timeout = flatten full_raw;
        client_use_full_timeout = use_full_timeout;
        client_header_buffer = some (unwrap_or limit_buffers.client_header (pos 16384));
        trusted_ca_bundle = tls.trusted_ca_bundle;
        global_upstream_headers = unwrap_or headers.upstream [];
        global_response_headers = unwrap_or headers.response [];
      }
