-- ===== src/Config/Global/File.antt =====
-- config/get_scety_config.rs, `get_scety_config`. Whether the file is there, what reads it and what
-- decodes TOML are parameters.
use scety.Prelude.{Bool, Option, none, some, unwrap_or, if◌then◌else◌}
use scety.Text.{Text}
use scety.Config.Global.{
  Duration, TlsSection, GlobalHeadersSection, LimitationSection, LimitBuffersSection, ScetyConfig,
  new,
}

pub record TomlConfig : Type 0 where
  pub limitation : Option LimitationSection
  pub limit_buffers : Option LimitBuffersSection
  pub tls : Option TlsSection
  pub headers : Option GlobalHeadersSection

-- The kinds of `std::io::Error`; `other` is the one that the reader gave.
pub data ErrorKind : Type 0 where
  not_found : ErrorKind
  invalid_data : ErrorKind
  other : ErrorKind

pub data Loaded : Type 0 where
  ok : Option ScetyConfig → Loaded
  err : ErrorKind → Loaded

-- `Default::default()` of the sections.
abbrev limitation_default : LimitationSection
limitation_default = record {
  ip_limitation = none;
  max_host_labels = none;
  client_headers_timeout = none;
  client_body_timeout = none;
  client_full_timeout = none;
}

abbrev limit_buffers_default : LimitBuffersSection
limit_buffers_default = record { client_header = none }

abbrev tls_default : TlsSection
tls_default = record { trusted_ca_bundle = none }

abbrev headers_default : GlobalHeadersSection
headers_default = record { upstream = none; response = none }

-- The configuration of an empty file.
unfoldable pub default_config : (Text → Option Duration) → ScetyConfig
unfolding new
default_config parse_duration =
    new parse_duration limitation_default limit_buffers_default tls_default headers_default

unfoldable pub get_scety_config :
    (Text → Option Duration) → Bool → Option Text → (Text → Option TomlConfig) → Loaded
unfolding new
get_scety_config parse_duration exists content from_str =
    if exists
    then elim content [
      | none ↦ err other
      | some text ↦ elim (from_str text) [
        | none ↦ err invalid_data
        | some toml_data ↦ ok (
            some (
              new parse_duration (unwrap_or toml_data.limitation limitation_default)
                (unwrap_or toml_data.limit_buffers limit_buffers_default)
                (unwrap_or toml_data.tls tls_default)
                (unwrap_or toml_data.headers headers_default)))
      ]
    ]
    else err not_found
