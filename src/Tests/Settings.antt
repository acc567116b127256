-- ===== src/Tests/Settings.antt =====
-- The settings of a service and the global ones.
use scety.Prelude.{◌≡◌, ◌↔◌, pos, true, Option, none, some, [], ◌∷◌, unwrap_or, Found}
use scety.Text.{Text, codes}
use scety.Config.Services.{ClientConfig, ok, validate_config}
use scety.Config.Services.Valid.{Valid, validate_config_iff}
use scety.Config.Global.{
  ScetyConfig, LimitationSection, LimitBuffersSection, TlsSection, GlobalHeadersSection, Duration,
  from_secs, host_exceeds_label_limit, parse_optional_timeout,
}
use scety.Config.Global
use scety.Config.Global.Timeouts.{shared, new-timeouts}

abbrev pub two_ports : ClientConfig
two_ports = record {
  mode = codes "http";
  host = some (codes "example.com");
  hosts = none;
  listen_port = none;
  listens_port = some (80 ∷ 8080 ∷ []);
  upstream = none;
  upstreams =
      (codes "upstream_80", record { port = some 3000; ports = none; service_timeout = none })
      ∷ (codes "upstream_8080", record { port = some 3001; ports = none; service_timeout = none })
      ∷ [];
  ssl = none;
  ssl_ports = [];
  headers = none;
}

validate_config_iff_example : (validate_config two_ports ≡ ok) ↔ Valid two_ports
validate_config_iff_example = validate_config_iff two_ports

-- A reader of durations that knows one of them.
abbrev duration : Text → Option Duration
duration text = elim text [ [] ↦ none | _ ∷ _ ↦ some (from_secs 30) ]

abbrev limitation : LimitationSection
limitation = record {
  ip_limitation = none;
  max_host_labels = some (pos 3);
  client_headers_timeout = none;
  client_body_timeout = none;
  client_full_timeout = some (codes "30s");
}

abbrev settings : ScetyConfig
settings =
    Global.new duration limitation (record { client_header = none })
      (record { trusted_ca_bundle = none }) (record { upstream = none; response = none })

new-timeouts_example :
    (settings.client_headers_timeout
      ≡ unwrap_or (parse_optional_timeout duration none) (
          shared duration limitation
            (record { client_header = none })
            (record { trusted_ca_bundle = none })
            (record { upstream = none; response = none })))
    × (settings.client_body_timeout
        ≡ unwrap_or (parse_optional_timeout duration none) (
            shared duration limitation
              (record { client_header = none })
              (record { trusted_ca_bundle = none })
              (record { upstream = none; response = none })))
    × ((settings.client_use_full_timeout ≡ true) ↔ (
        (limitation.client_headers_timeout ≡ none)
        × (limitation.client_body_timeout ≡ none)
        × Found limitation.client_full_timeout))
new-timeouts_example =
    new-timeouts duration limitation (record { client_header = none })
      (record { trusted_ca_bundle = none }) (record { upstream = none; response = none })
