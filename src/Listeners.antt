-- ===== src/Listeners.antt =====
-- network/listeners.rs, from `start_listen_port` to `process_request`: the loops that accept
-- connections, the tasks that they spawn, and the count of connections that all ports share. What
-- happens on a port is a list of events; the end of the list is a loop that still waits.
use scety.Prelude.{
  ℕ, ℤ, pos, Bool, true, false, Option, none, some, List, [], ◌∷◌, if◌then◌else◌, unwrap_or,
}
use scety.Text.{Text}
use scety.Text.Utf8.{Bytes}
use scety.Config.Services.{ClientConfig, SslConfig}
use scety.Config.Global.{ScetyConfig}
use scety.IpLimit.{IpAddr, Connections, ConnectionGuard, try_acquire, drop_guard}
use scety.SearchRouter.{LruCache, SearchRouter}
use scety.Listener.Socket.{Socket, send}
use scety.Listener.Read.{Parsed}
use scety.Listener.Process.{World, Reply, process_request_inner}
use scety.GlobalRouter.{SslMode, no_tls, manual, acme, Task}
pub mod Steps
pub mod Served
pub mod Ports
pub mod Drain
pub mod Tls

-- The tasks that the loops spawn, each with what it owns: one that sends 429, one that handles a
-- client, one that shakes hands first, and one that handles a client of an ACME port.
pub data Spawned : Type 0 where
  refuse : IpAddr → Spawned
  serve : IpAddr → ConnectionGuard → Spawned
  handshake : IpAddr → ConnectionGuard → Spawned
  serve_acme : Option IpAddr → Spawned

-- The shared map of connections, and the tasks that run.
pub record Proxy : Type 0 where
  pub connections : Connections
  pub tasks : List Spawned

-- `scety_config().ip_limitation.unwrap_or(20)`
abbrev pub ip_limit : ScetyConfig → ℤ
ip_limit cfg = unwrap_or cfg.ip_limitation (pos 20)

unfoldable pub check_ip_limit :
    ScetyConfig → IpAddr → Connections → Connections × Option ConnectionGuard
unfolding try_acquire
check_ip_limit cfg ip map = try_acquire ip (ip_limit cfg) map

-- The arms of `match check_ip_limit(..)`: with no guard a plain port answers 429, and a port with a
-- certificate drops the socket.
abbrev pub spawn_plain : IpAddr → Option ConnectionGuard → List Spawned → List Spawned
spawn_plain ip (some guard) tasks = serve ip guard ∷ tasks
spawn_plain ip none tasks = refuse ip ∷ tasks

abbrev pub spawn_manual : IpAddr → Option ConnectionGuard → List Spawned → List Spawned
spawn_manual ip (some guard) tasks = handshake ip guard ∷ tasks
spawn_manual ip none tasks = tasks

-- `Ok((socket, addr))` on a plain port.
unfoldable pub accept_plain : ScetyConfig → IpAddr → Proxy → Proxy
unfolding check_ip_limit
accept_plain cfg ip p = record {
  connections = (check_ip_limit cfg ip p.connections).0;
  tasks = spawn_plain ip (check_ip_limit cfg ip p.connections).1 p.tasks;
}

-- The same on a port with a certificate.
unfoldable pub accept_manual : ScetyConfig → IpAddr → Proxy → Proxy
unfolding check_ip_limit
accept_manual cfg ip p = record {
  connections = (check_ip_limit cfg ip p.connections).0;
  tasks = spawn_manual ip (check_ip_limit cfg ip p.connections).1 p.tasks;
}

-- `Some(Ok(tls_stream))` on an ACME port; the peer's address may be unknown.
unfoldable pub accept_acme : Option IpAddr → Proxy → Proxy
accept_acme ip p = record { connections = p.connections; tasks = serve_acme ip ∷ p.tasks }

-- What a task that ends, in whatever way, gives back.
unfoldable pub finish : Spawned → Connections → Connections
unfolding drop_guard
finish (refuse ip) map = map
finish (serve ip guard) map = drop_guard guard map
finish (handshake ip guard) map = drop_guard guard map
finish (serve_acme ip) map = map

-- What `tokio::select!` gets from the token and from `accept`.
pub data Event : Type 0 where
  cancelled : Event
  accepted : IpAddr → Event
  accept_error : Event

-- The same for the stream of an ACME port.
pub data AcmeEvent : Type 0 where
  cancelled : AcmeEvent
  ended : AcmeEvent
  tls_error : AcmeEvent
  tls_stream : Option IpAddr → AcmeEvent

-- What a port meets: whether it can be bound, whether a certificate can be loaded, and the events.
pub record Outside : Type 0 where
  pub binds : ℕ → Bool
  pub loads : SslConfig → Bool
  pub events : ℕ → List Event
  pub acme_events : ℕ → List AcmeEvent

-- The loops; the flag says that the function has returned.
module _ (cfg : ScetyConfig) where
  unfoldable pub plain_loop : List Event → Proxy → Proxy × Bool
  unfolding accept_plain
  plain_loop [] p = (p, false)
  plain_loop (cancelled ∷ events) p = (p, true)
  plain_loop (accepted ip ∷ events) p = plain_loop events (accept_plain cfg ip p)
  plain_loop (accept_error ∷ events) p = plain_loop events p

  unfoldable pub manual_loop : List Event → Proxy → Proxy × Bool
  unfolding accept_manual
  manual_loop [] p = (p, false)
  manual_loop (cancelled ∷ events) p = (p, true)
  manual_loop (accepted ip ∷ events) p = manual_loop events (accept_manual cfg ip p)
  manual_loop (accept_error ∷ events) p = manual_loop events p

  unfoldable pub acme_loop : List AcmeEvent → Proxy → Proxy × Bool
  unfolding accept_acme
  acme_loop [] p = (p, false)
  acme_loop (cancelled ∷ events) p = (p, true)
  acme_loop (ended ∷ events) p = (p, true)
  acme_loop (tls_error ∷ events) p = acme_loop events p
  acme_loop (tls_stream ip ∷ events) p = acme_loop events (accept_acme ip p)

  unfoldable pub start_plain_port : Outside → ℕ → Proxy → Proxy × Bool
  unfolding plain_loop
  start_plain_port w port p = if w.binds port then plain_loop (w.events port) p else (p, true)

  unfoldable pub start_manual_tls_port : Outside → ℕ → SslConfig → Proxy → Proxy × Bool
  unfolding manual_loop
  start_manual_tls_port w port ssl p =
      if w.loads ssl
      then (if w.binds port then manual_loop (w.events port) p else (p, true))
      else (p, true)

  unfoldable pub start_acme_port : Outside → ℕ → Proxy → Proxy × Bool
  unfolding acme_loop
  start_acme_port w port p = if w.binds port then acme_loop (w.acme_events port) p else (p, true)

  unfoldable pub start_listen_port : Outside → Task → Proxy → Proxy × Bool
  unfolding start_plain_port start_manual_tls_port start_acme_port
  start_listen_port w task p = elim task.ssl_mode [
    | no_tls ↦ start_plain_port w task.port p
    | manual ssl ↦ start_manual_tls_port w task.port ssl p
    | acme ssl ↦ start_acme_port w task.port p
  ]

-- `process_request` logs and goes on.
abbrev pub process_request :
    (lru : LruCache)
    → (Bytes → Parsed)
    → ScetyConfig
    → World
    → Text
    → Socket
    → SearchRouter lru
    → Option Reply
process_request lru parse cfg world client_ip s r =
    process_request_inner lru parse cfg world client_ip s r

-- `handle_client`: the request is processed, unless the token is cancelled first; then what was
-- done until then stands.
unfoldable pub handle_client :
    (lru : LruCache)
    → (Bytes → Parsed)
    → ScetyConfig
    → World
    → Text
    → Option Reply
    → Socket
    → SearchRouter lru
    → Option Reply
unfolding send process_request_inner
handle_client lru parse cfg world client_ip cut s r = elim cut [
  | some done ↦
      some (record done { is_ok = true; client = unwrap_or (send 503 done.client) done.client })
  | none ↦ process_request lru parse cfg world client_ip s r
]
