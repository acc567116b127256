-- ===== src/Tests/Start.antt =====
-- Listeners and certificates.
use scety.Prelude.{
  ℕ, pos, ◌≡◌, ◌↔◌, refl, true, none, some, [], ◌∷◌, ◌==◌, count, All, Any, ◌⊎◌, ◌≢◌,
}
use scety.Text.{codes}
use scety.Config.Services.{ClientConfig}
use scety.GlobalRouter.{Task, start_listen}
use scety.GlobalRouter.Ports.{Picks, Mode, start_listen_lem}
use scety.CertCheck.{Certificates, Certificate, check_all_configured_certs}
use scety.CertCheck.Checks.{AllPass, check_all_configured_certs_iff}
use scety.Tests.Router.{services}

start_listen_lem_example :
    ((port : ℕ)
      → ((count (λ (t : Task). t.port == port) (start_listen services) ≡ 1)
          × Any (λ (c : ClientConfig). c.listen_port ≡ some port) services)
        ⊎ ((count (λ (t : Task). t.port == port) (start_listen services) ≡ 0)
            × All (λ (c : ClientConfig). c.listen_port ≢ some port) services))
    × All
        (λ (t : Task). Picks t.port services t.configs × Mode t.port t.configs t.ssl_mode)
        (start_listen services)
start_listen_lem_example = start_listen_lem services

abbrev leaf : Certificate
leaf = record {
  not_after = pos 2_000_000_000;
  issuer = codes "CN=Authority";
  subject = codes "CN=example.com";
  dns_sans = codes "*.example.com" ∷ [];
}

-- One certificate in one file.
abbrev certificates : Certificates
certificates = record {
  read_file = λ path. some [];
  pem_blocks = λ bytes. some ([] ∷ []);
  from_der = λ block. some leaf;
  now = pos 1_900_000_000;
  trust_chain = λ blocks hosts bundle. true;
}

abbrev secured : ClientConfig
secured = record {
  mode = codes "http";
  host = some (codes "www.example.com");
  hosts = none;
  listen_port = some 443;
  listens_port = none;
  upstream = some (record { port = some 3000; ports = none; service_timeout = none });
  upstreams = [];
  ssl = some (record {
    cert = some (codes "cert.pem");
    key = some (codes "key.pem");
    acme = none;
    acme_email = none;
    acme_domains = none;
    acme_cache = none;
  });
  ssl_ports = [];
  headers = none;
}

secured-checked : check_all_configured_certs certificates (secured ∷ services) none ≡ true
unfolding check_all_configured_certs
secured-checked = refl

check_all_configured_certs_iff_example :
    (check_all_configured_certs certificates (secured ∷ services) none ≡ true)
    ↔ All (AllPass certificates none) (secured ∷ services)
check_all_configured_certs_iff_example =
    check_all_configured_certs_iff certificates none (secured ∷ services)
