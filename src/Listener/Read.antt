-- ===== src/Listener/Read.antt =====
-- network/listeners.rs, `read_request`: the head of a request is read into a growing buffer, parsed,
-- checked and matched with a configuration. `httparse` is a parameter.
use scety.Prelude.{
  ℕ, zero, suc, ◌+◌, ◌-◌, ◌*◌, min, Bool, true, false, ◌&&◌, Option, none, some, List, [], ◌∷◌,
  ◌++◌, ltb, leb, if◌then◌else◌, length, unwrap_or, is_empty,
}
use scety.Text.{Text, codes, split, trim_start_matches, eq_ignore_ascii_case}
use scety.Text.Utf8.{Bytes, from_utf8_lossy}
use scety.Config.Services.{ClientConfig, UpstreamConfig, HeadersConfig}
use scety.Config.Global.{ScetyConfig, host_exceeds_label_limit}
use scety.SearchRouter.{LruCache, SearchRouter, find}
use scety.Listener.Framing.{
  Header, Framing, ok, err, is_named, validate_framing_headers, is_websocket_upgrade,
}
use scety.Listener.Socket.{Arrival, Socket, Read, got, read_error, read, send}
pub mod Ends
pub mod Checked
pub mod Told
pub mod Taken

-- `req.parse(..)`: `Ok(Complete)` with the headers, `Ok(Partial)` or `Err`.
pub data Parsed : Type 0 where
  complete : List Header → Parsed
  partial : Parsed
  malformed : Parsed

-- What `Ok(Some(..))` carries.
pub record Request : Type 0 where
  pub received : Bytes
  pub target_port : Option ℕ
  pub headers_config : Option HeadersConfig
  pub is_ws : Bool

-- `Ok(Some(request))`, `Ok(None)` and `Err(e)`. `out_of_fuel` belongs to the model only.
pub data Outcome : Type 0 where
  request : Request → Outcome
  nothing : Outcome
  failure : Outcome
  out_of_fuel : Outcome

-- `headers.iter().find(|h| h.name.eq_ignore_ascii_case("Host"))` and its text.
unfoldable pub host_header : List Header → Option Text
unfolding eq_ignore_ascii_case from_utf8_lossy
host_header [] = none
host_header (h ∷ headers) =
    if is_named (codes "Host") h then some (from_utf8_lossy h.value) else host_header headers

abbrev pub first_or_else : List Text → Text → Text
first_or_else [] d = d
first_or_else (w ∷ ws) d = w

-- The host without a scheme and a port.
unfoldable pub clean_host : Text → Text
unfolding trim_start_matches split
clean_host req_host =
    first_or_else
      (split b':'
        (trim_start_matches (codes "https://") (trim_start_matches (codes "http://") req_host)))
      req_host

module _ (lru : LruCache) (parse : Bytes → Parsed) (cfg : ScetyConfig) where
  -- The outcome, the client's stream and the router with its cache.
  abbrev pub Done : Type 0
  Done = Outcome × Socket × SearchRouter lru

  -- `send(..).await?; return Ok(None)`
  abbrev pub refuse : ℕ → Socket → SearchRouter lru → Done
  refuse code s r = elim (send code s) [ none ↦ (failure, s, r) | some s' ↦ (nothing, s', r) ]

  -- `if let Some(target_config) = search_router.find(&clean_host)`
  unfoldable pub route : Bytes → List Header → Text → Socket → SearchRouter lru → Done
  unfolding is_websocket_upgrade find
  route received headers host s r =
      let (target, r') = find lru host r in
      elim target [
        | none ↦ (nothing, s, r')
        | some c ↦ (
          request (record {
            received = received;
            target_port = elim c.upstream [ none ↦ none | some u ↦ UpstreamConfig.port u ];
            headers_config = c.headers;
            is_ws = is_websocket_upgrade headers;
          }),
          s,
          r',
        )
      ]

  -- The arm `Ok(Status::Complete(_))`.
  unfoldable pub on_complete : Bytes → List Header → Socket → SearchRouter lru → Done
  unfolding validate_framing_headers host_header clean_host host_exceeds_label_limit route send
  on_complete received headers s r = elim (validate_framing_headers headers) [
    | err reason ↦ refuse 400 s r
    | ok ↦ elim (host_header headers) [
      | none ↦ (nothing, s, r)
      | some req_host ↦
          if host_exceeds_label_limit cfg (clean_host req_host)
          then refuse 423 s r
          else route received headers (clean_host req_host) s r
    ]
  ]

  -- The loop: `received` is `buf[..read_bytes]`, and `buf_len` is `buf.len()`.
  unfoldable pub read_loop : ℕ → (max_buf buf_len : ℕ) → Bytes → Socket → SearchRouter lru → Done
  unfolding on_complete read send
  read_loop zero max_buf buf_len received s r = (out_of_fuel, s, r)
  read_loop (suc fuel) max_buf buf_len received s r =
      let (result, arrivals) = read (buf_len - length received) s.arrivals in
      let s' : Socket = record s { arrivals = arrivals } in
      elim result [
        | read_error ↦ (failure, s', r)
        | got bytes ↦
            let received' = received ++ bytes in
            let again = read_loop fuel max_buf buf_len received' s' r in
            let grown = read_loop fuel max_buf (min (buf_len * 2) max_buf) received' s' r in
            if is_empty bytes then (nothing, s', r) else elim (parse received') [
              | complete headers ↦ on_complete received' headers s' r
              | malformed ↦ (nothing, s', r)
              | partial ↦
                  if leb buf_len (length received')
                  then (if leb max_buf buf_len then refuse 431 s' r else grown)
                  else again
            ]
      ]

  -- Each round reads at least a byte, and there are at most `max_buf` of them.
  unfoldable pub read_request : ℕ → Socket → SearchRouter lru → Done
  unfolding read_loop
  read_request max_buf s r = read_loop (suc max_buf) max_buf (min max_buf 4096) [] s r
