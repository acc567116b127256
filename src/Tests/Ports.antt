-- ===== src/Tests/Ports.antt =====
-- Connections to the ports, and certificates.
use scety.Prelude.{
  ◌⊎◌, ℕ, ◌+◌, zero, suc, ◌≡◌, refl, ◌≤◌, ◌<◌, ◌↔◌, pos, true, false, Option, none, some, List, [],
  ◌∷◌, count, arith,
}
use scety.Text.{Text, codes}
use scety.Config.Services.{SslConfig}
use scety.IpLimit.{IpAddr, v4, ip_eq}
use scety.GlobalRouter.{Task, no_tls, acme}
use scety.Listeners.{
  Proxy, refuse, ip_limit, accept_plain, accept_manual, Outside, accepted, start_listen_port,
  AcmeEvent, tls_stream, acme_loop,
}
use scety.Listeners.Steps.{Reach, start, next, plain}
use scety.Listeners.Served.{served, Reach-served_le, accept-refused_iff}
use scety.Listeners.Ports.{
  serves_acme, connects, until_end, start_listen_port-served_le, acme_loop-unlimited,
}
use scety.Listeners.Drain.{Ends, drains}
use scety.Listeners.Tls.{load_manual_tls, Loaded, load_manual_tls_iff}
use scety.Tests.Messages.{settings}

abbrev address : IpAddr
address = v4 1

abbrev empty_proxy : Proxy
empty_proxy = record { connections = λ _. none; tasks = [] }

abbrev one_client : Proxy
one_client = accept_plain settings address empty_proxy

one_client-Reach : Reach settings one_client
one_client-Reach = next start (plain empty_proxy address)

limited : ip_limit settings ≡ pos 20
limited = refl

Reach-served_le_example : served address one_client.tasks ≤ 20
Reach-served_le_example = Reach-served_le settings 20 limited address one_client-Reach

accept-refused_iff_example :
    (((accept_plain settings address one_client).tasks ≡ refuse address ∷ one_client.tasks)
      ↔ (served address one_client.tasks ≡ 20))
    × (((accept_manual settings address one_client).tasks ≡ one_client.tasks)
        ↔ (served address one_client.tasks ≡ 20))
accept-refused_iff_example = accept-refused_iff settings 20 limited address one_client-Reach

-- The address connects this often, and once more after the port was cancelled.
abbrev streams_of : IpAddr → ℕ → List AcmeEvent
streams_of ip zero = AcmeEvent.cancelled ∷ tls_stream (some ip) ∷ []
streams_of ip (suc n) = tls_stream (some ip) ∷ streams_of ip n

acme_loop-unlimited_example :
    Reach settings (acme_loop settings (streams_of address 25) one_client).0
    × (count (serves_acme address) (acme_loop settings (streams_of address 25) one_client).0.tasks
        ≡ count (connects address) (until_end (streams_of address 25))
          + count (serves_acme address) one_client.tasks)
acme_loop-unlimited_example =
    acme_loop-unlimited settings address (streams_of address 25) one_client-Reach

-- More than the limit of the other ports.
connects_often : count (connects address) (until_end (streams_of address 25)) ≡ 25
unfolding ip_eq
connects_often = refl

-- A port that accepts two connections.
abbrev pub outside : Outside
outside = record {
  binds = λ port. true;
  loads = λ ssl. false;
  events = λ port. accepted address ∷ accepted (v4 2) ∷ [];
  acme_events = λ port. [];
}

abbrev plain_task : Task
plain_task = record { port = 80; configs = []; ssl_mode = no_tls }

start_listen_port-served_le_example :
    (served address (start_listen_port settings outside plain_task one_client).0.tasks ≤ 20)
    × (((s : SslConfig) × (no_tls ≡ acme s))
        ⊎ (count
              (serves_acme address)
              (start_listen_port settings outside plain_task one_client).0.tasks
            ≡ count (serves_acme address) one_client.tasks))
start_listen_port-served_le_example =
    start_listen_port-served_le settings outside one_client-Reach 20 plain_task address limited

positive : 0 < 20
positive = omega arith

drains_example :
    (q : Proxy) × Ends settings one_client q
    × (q.tasks ≡ [])
    × ((ip : IpAddr) → q.connections ip ≡ none)
drains_example = drains settings 20 limited positive one_client-Reach

abbrev ssl : SslConfig
ssl = record {
  cert = some (codes "cert.pem");
  key = some (codes "key.pem");
  acme = none;
  acme_email = none;
  acme_domains = none;
  acme_cache = none;
}

-- A file with two certificates, numbers in their place, and a key.
abbrev pem_file_iter : Text → Option (List (Option ℕ))
pem_file_iter path = some (some 1 ∷ some 2 ∷ [])

abbrev from_pem_file : Text → Option ℕ
from_pem_file path = some 7

abbrev with_single_cert : List ℕ → ℕ → Option ℕ
with_single_cert certs key = some key

load_manual_tls_iff_example :
    (load_manual_tls pem_file_iter from_pem_file with_single_cert ssl ≡ some 7)
    ↔ Loaded pem_file_iter from_pem_file with_single_cert ssl 7
load_manual_tls_iff_example = load_manual_tls_iff pem_file_iter from_pem_file with_single_cert ssl 7
