-- ===== src/Listener/Process.antt =====
-- network/listeners.rs, `process_request_inner`: from a client's connection to the request that the
-- upstream gets and the response that is relayed. What the clock and the network decide is the
-- record `World`.
use scety.Prelude.{
  take, ℕ, ◌+◌, ◌-◌, ℤ, pos, negsuc, Bool, true, false, ◌&&◌, ◌||◌, not, Option, none, some, List,
  [], if◌then◌else◌,
}
use scety.Text.{Text}
use scety.Text.Utf8.{Bytes}
use scety.Map.{Map}
use scety.Config.Services.{HeadersConfig}
use scety.Config.Global.{ScetyConfig}
use scety.SearchRouter.{LruCache, SearchRouter}
use scety.Listener.Socket.{Arrival, Socket, send}
use scety.Listener.Read.{
  Parsed, Request, Outcome, request, nothing, failure, out_of_fuel, read_request,
}
use scety.Listener.Forward.{
  upstream_headers, response_headers, final_buf, Relayed, copied, closed, broken, out_of_fuel,
  relay_upstream_response,
}
pub mod Replies
pub mod Statuses

-- `timeout(30 s, TcpStream::connect(..))`: the upstream's stream, and the number of bytes that it takes
-- before a write to it fails, if it does.
pub data Connect : Type 0 where
  connected : List Arrival → Option ℕ → Connect
  refused : Connect
  timed_out : Connect

-- `headers_late` is the client's stream when the headers' timeout strikes, if it does; `body_late`
-- says that the body's timeout does; `copy_fails` that `copy_bidirectional` ends with an error.
pub record World : Type 0 where
  pub headers_late : Option Socket
  pub connect : ℕ → Connect
  pub body_late : Bool
  pub copy_fails : Bool

-- `Ok(())` or `Err(e)` with the client's stream, the port and the bytes that an upstream was sent,
-- and what was relayed from it.
pub record Reply : Type 0 where
  pub is_ok : Bool
  pub client : Socket
  pub upstream : Option (ℕ × Bytes)
  pub relayed : Option Relayed

-- `max_buf as usize`
unfoldable pub as_usize : ℤ → ℕ
as_usize (pos n) = n
as_usize (negsuc n) = 18_446_744_073_709_551_615 - n

-- `send(..).await?; Ok(())`
unfoldable pub answer : ℕ → Socket → Reply
unfolding send
answer code s = elim (send code s) [
  | none ↦ record { is_ok = false; client = s; upstream = none; relayed = none }
  | some s' ↦ record { is_ok = true; client = s'; upstream = none; relayed = none }
]

-- `result?`, where `copied` goes on with `copy_bidirectional`.
unfoldable pub relay_ok : Bool → Relayed → Bool
relay_ok copy_fails (copied written rest) = not copy_fails
relay_ok copy_fails (closed written) = true
relay_ok copy_fails broken = false
relay_ok copy_fails out_of_fuel = false

abbrev is_some {ℓ} : {A : Type ℓ} → Option A → Bool
is_some none = false
is_some (some a) = true

module _ (cfg : ScetyConfig) (world : World) (client_ip : Text) (max_buf : ℕ) where
  -- From `upstream_socket.write_all` on. When the body's timeout strikes, what the whole relay would
  -- have passed on is recorded; less may have been.
  unfoldable pub forward : Request → ℕ → Socket → List Arrival → Option ℕ → Reply
  unfolding upstream_headers response_headers final_buf relay_upstream_response relay_ok
  forward q port s arrivals write_fails =
      let sent = final_buf q.received (upstream_headers cfg q.headers_config client_ip) in
      let relayed =
        relay_upstream_response s.writable (response_headers cfg q.headers_config) max_buf
          arrivals in
      let body_timeout = not q.is_ws && is_some cfg.client_body_timeout && world.body_late in
      elim write_fails [
        | none ↦ record {
          is_ok = body_timeout || relay_ok world.copy_fails relayed;
          client = s;
          upstream = some (port, sent);
          relayed = some relayed;
        }
        | some n ↦ record {
          is_ok = false;
          client = s;
          upstream = some (port, take n sent);
          relayed = none;
        }
      ]

  -- The arm `Ok(Ok(Some(..)))`.
  unfoldable pub on_request : Request → Socket → Reply
  unfolding answer forward
  on_request q s = elim q.target_port [
    | none ↦ answer 502 s
    | some port ↦ elim (world.connect port) [
      | timed_out ↦ answer 504 s
      | refused ↦ answer 502 s
      | connected arrivals write_fails ↦ forward q port s arrivals write_fails
    ]
  ]

  -- The arms of `match parse_result` but the timeout's; reading ends, so the last one is never taken.
  unfoldable pub on_outcome : Outcome → Socket → Reply
  unfolding answer on_request
  on_outcome (request q) s = on_request q s
  on_outcome nothing s = answer 404 s
  on_outcome failure s = record { is_ok = false; client = s; upstream = none; relayed = none }
  on_outcome out_of_fuel s = record { is_ok = false; client = s; upstream = none; relayed = none }

-- `none` is the panic of `unwrap`. A late timeout leaves the router's cache to the read that it
-- drops; the reply does not depend on it.
unfoldable pub process_request_inner :
    (lru : LruCache)
    → (Bytes → Parsed)
    → ScetyConfig
    → World
    → Text
    → Socket
    → SearchRouter lru
    → Option Reply
unfolding read_request on_outcome answer as_usize
process_request_inner lru parse cfg world client_ip s r = elim cfg.client_header_buffer [
  | none ↦ none
  | some buffer ↦
      let max_buf = as_usize buffer in
      let (outcome, s', r') = read_request lru parse cfg max_buf s r in
      let in_time = on_outcome cfg world client_ip max_buf outcome s' in
      elim cfg.client_headers_timeout [
        | none ↦ some in_time
        | some d ↦ elim world.headers_late [
          | none ↦ some in_time
          | some late ↦ some (answer 408 late)
        ]
      ]
]
