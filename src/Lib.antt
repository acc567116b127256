-- ===== src/Lib.antt =====
-- scety is a reverse proxy: a client's connection is accepted under a limit per address, the head of
-- its request is read and checked, the host picks a configuration, and the request goes on to the
-- upstream that this configuration names, whose response is relayed.
--
-- What models which part (paths from the repository's root):
--   HostRouter    src/core/host_router.rs. Table is `HostRouter` with `add_pattern` and `matches`,
--                 each branch and each lookup stage a definition; Trie is `LabelTrie`; Internal is
--                 `matches_single_internal_wildcard` and `matches_internal_double_star`; Dp is
--                 `dp_host_matches` on its flat table, also with each index checked (InRange).
--                 Labels has the relation `Matches`, what a pattern means, and Route relates the whole
--                 table to it.
--   SearchRouter  src/core/search_router.rs: the routing table of the services of a port behind an
--                 LRU cache. The cache of the `lru` crate is the record `LruCache`, of operations
--                 and what their documentation says of them.
--   IpLimit       src/network/ip_limit.rs: `try_acquire` and `Drop` of the guard; Steps has the
--                 sequences of arriving and closing connections, which the map's mutex puts in order.
--   Config        src/config/get_services_config.rs (Services: `validate_config`) and
--                 src/config/get_scety_config.rs (Global: `ScetyConfig`), with the loading of
--                 files in Files and File. `humantime`, the walk and TOML are parameters.
--   Listener      src/network/listeners.rs. Framing: `validate_framing_headers` and
--                 `is_websocket_upgrade`; Strip: `strip_headers_by_name` and the rewriting of a
--                 head; Socket: a stream as the list of what arrives on it; Read: `read_request`, with
--                 `httparse` as a parameter; Forward: the added headers, `sorted_headers` and
--                 `relay_upstream_response`; Process: `process_request_inner`, with what the clock
--                 and the network decide as the record `World`.
--   GlobalRouter  src/network/global_router.rs: `start_listen` as the list of tasks that it spawns, and
--                 `resolve_ssl_mode`.
--   CertCheck     src/network/cert_check.rs, with files, the parsers and the verification of the
--                 chain (`check_trust_chain`, which is `rustls`) as the record `Certificates`.
--   Response      src/core/response.rs: `HttpResponse` and its text. Reader is a reader of HTTP
--                 responses that shares nothing with the printer.
--   Pages         src/http/generate_http_response.rs, src/http/error_pages.rs and
--                 src/network/fallback_server.rs; templates, the table of messages and the date are
--                 parameters.
--   Listeners     src/network/listeners.rs from `start_listen_port` to `process_request`: the loops
--                 over lists of events, and Steps with the interleavings of all ports over the one
--                 map of IpLimit. Tls is src/network/tls.rs, with the PEM reader and `rustls` as
--                 parameters.
--   Cli           src/cli/commands: a command makes calls that change the system and asks what it
--                 answers, as the record `World`, of functions of the calls so far. Run is the start of
--                 the proxy, from the configurations to the listeners.
--   Prelude, Text, Map are the lists, numbers, strings and hash maps that these share. A string is
--   the list of its code points, a hash map an association list in its order of iteration.
--   Tests         sample runs, and the theorems at concrete inputs.
--
-- Bounds and fuel. `read_request` and `relay_upstream_response` loop on fuel, one more than the
-- buffer's limit: each round but the last reads at least one byte, and no more than the limit is
-- held, so the fuel lasts. A limit from the settings is an i32 that `as usize` extends with its sign.
-- The loops of `dp_host_matches` recur on the rounds that are left; ports are read as u16.
-- A code or a port is printed with at most five digits, which a u16 needs, and a length in bytes with
-- twenty, which a usize needs. `replace` and `trim_start_matches` take the text itself as fuel: each
-- round drops a character of it at least.
--
-- Not modelled: the handshakes of TLS and ACME, `copy_bidirectional` after the head, the reading of
-- files and of TOML and the walk over directories (parameters), the parser of arguments and logging.
-- In the Listener modules a response to the client is its status; Pages has its bytes. A stream's end
-- is the end of its list, so a client that stays silent without closing is there only as the timeout
-- of the headers; and when the body's timeout strikes, the whole relay is recorded. At the start of
-- the proxy the ports' loops run one after the other over the shared map; Listeners.Steps has their
-- interleavings. `sort_by` is an insertion sort.
pub mod Prelude
pub mod Response
pub mod Text
pub mod Map
pub mod HostRouter
pub mod Config
pub mod SearchRouter
pub mod IpLimit
pub mod Listener
pub mod Pages
pub mod CertCheck
pub mod GlobalRouter
pub mod Listeners
pub mod Cli
mod Tests
