-- ===== src/Listener/Forward.antt =====
-- network/listeners.rs: the headers that `process_request_inner` adds for the upstream and for the
-- client, `sorted_headers`, the request as it is forwarded, and `relay_upstream_response`.
-- `sort_by` is the standard library's stable sort; here it is an insertion sort.
use scety.Prelude.{
  ℕ, zero, suc, ◌+◌, ◌-◌, ◌*◌, min, Bool, true, false, Option, none, some, List, [], ◌∷◌, ◌++◌, ltb,
  leb, ◌==◌, if◌then◌else◌, length, is_empty, map,
}
use scety.Text.{Text, codes, rsplit_once}
use scety.Text.Utf8.{Bytes}
use scety.Map.{Map, insert, extend, keys}
use scety.Config.Services.{HeadersConfig}
use scety.Config.Global.{ScetyConfig}
use scety.Listener.Strip.{find_head_end, rewrite_head}
use scety.Listener.Socket.{Arrival, Read, got, read_error, read}
pub mod Sorted
pub mod Headers
pub mod Relay

-- `a.cmp(b) != Greater` on strings.
unfoldable pub text_leb : Text → Text → Bool
text_leb [] b = true
text_leb (x ∷ a) [] = false
text_leb (x ∷ a) (y ∷ b) = let rest = text_leb a b in if x == y then rest else ltb x y

unfoldable pub insert_sorted : Text × Text → List (Text × Text) → List (Text × Text)
unfolding text_leb
insert_sorted h [] = h ∷ []
insert_sorted h (g ∷ gs) =
    let rest = insert_sorted h gs in if text_leb h.0 g.0 then h ∷ g ∷ gs else g ∷ rest

unfoldable pub sorted_headers : Map Text → List (Text × Text)
unfolding insert_sorted
sorted_headers [] = []
sorted_headers (h ∷ headers) = insert_sorted h (sorted_headers headers)

-- The address without its port.
unfoldable pub xff_ip : Text → Text
unfolding rsplit_once
xff_ip client_ip = elim (rsplit_once b':' client_ip) [ none ↦ client_ip | some (ip, _) ↦ ip ]

abbrev pub forwarded_for : Text
forwarded_for = codes "X-Forwarded-For"

-- `if let Some(hc) = &headers_config && let Some(custom) = &hc.upstream`
abbrev pub custom_headers : (HeadersConfig → Option (Map Text)) → Option HeadersConfig → Map Text
custom_headers field none = []
custom_headers field (some hc) = elim (field hc) [ none ↦ [] | some custom ↦ custom ]

unfoldable pub upstream_headers : ScetyConfig → Option HeadersConfig → Text → Map Text
unfolding insert extend xff_ip
upstream_headers cfg headers_config client_ip =
    insert forwarded_for (xff_ip client_ip)
      (extend cfg.global_upstream_headers (custom_headers HeadersConfig.upstream headers_config))

unfoldable pub response_headers : ScetyConfig → Option HeadersConfig → List (Text × Text)
unfolding extend sorted_headers
response_headers cfg headers_config =
    sorted_headers
      (extend cfg.global_response_headers (custom_headers HeadersConfig.response headers_config))

-- What is written to the upstream.
unfoldable pub final_buf : Bytes → Map Text → Bytes
unfolding find_head_end rewrite_head keys sorted_headers
final_buf received headers = elim (find_head_end received) [
  | none ↦ received
  | some pos ↦ rewrite_head received pos (keys headers) (sorted_headers headers)
]

-- How a relay ends, with the bytes that it has written to the client itself: `copied` goes on with
-- `copy_bidirectional` and what the upstream still sends, `closed` is the upstream's end, `broken`
-- an error. `out_of_fuel` belongs to the model only.
pub data Relayed : Type 0 where
  copied : Bytes → List Arrival → Relayed
  closed : Bytes → Relayed
  broken : Relayed
  out_of_fuel : Relayed

module _ (writable : Bool) (extra_headers : List (Text × Text)) where
  -- The head is there: it is written with the new headers.
  unfoldable pub relay_head : Bytes → ℕ → List Arrival → Relayed
  unfolding rewrite_head
  relay_head received pos arrivals =
      if writable
      then copied (rewrite_head received pos (map (λ h. h.0) extra_headers) extra_headers) arrivals
      else broken

  -- The loop: `received` is `buf[..read_bytes]`, and `buf_len` is `buf.len()`.
  unfoldable pub relay_loop : ℕ → (max_buf buf_len : ℕ) → Bytes → List Arrival → Relayed
  unfolding read find_head_end relay_head
  relay_loop zero max_buf buf_len received upstream = out_of_fuel
  relay_loop (suc fuel) max_buf buf_len received upstream =
      let (result, arrivals) = read (buf_len - length received) upstream in
      elim result [
        | read_error ↦ broken
        | got bytes ↦
            let received' = received ++ bytes in
            let again = relay_loop fuel max_buf buf_len received' arrivals in
            let grown = relay_loop fuel max_buf (min (buf_len * 2) max_buf) received' arrivals in
            if is_empty bytes
            then (if writable then closed received else broken)
            else elim (find_head_end received') [
              | some pos ↦ relay_head received' pos arrivals
              | none ↦
                  if leb buf_len (length received')
                  then (if leb max_buf buf_len
                      then (if writable then copied received' arrivals else broken)
                      else grown)
                  else again
            ]
      ]

  unfoldable pub relay_upstream_response : ℕ → List Arrival → Relayed
  unfolding relay_loop
  relay_upstream_response max_buf upstream =
      if is_empty extra_headers
      then copied [] upstream
      else relay_loop (suc max_buf) max_buf (min max_buf 4096) [] upstream
