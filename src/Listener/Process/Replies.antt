-- ===== src/Listener/Process/Replies.antt =====
-- What an upstream is sent, and by which requests.
use scety.Prelude.{
  take, Option, ℕ, ◌≡◌, refl, ap, sym, subst, ◌∙◌, ◌⊎◌, inl, inr, ℤ, none, some, List, ◌++◌, arith,
  Option-cases,
}
use scety.Text.{Text}
use scety.Text.Utf8.{Bytes}
use scety.Config.Global.{ScetyConfig}
use scety.SearchRouter.{LruCache, SearchRouter}
use scety.Listener.Socket.{Arrival, Socket}
use scety.Listener.Read.{
  Parsed, Request, Outcome, request, nothing, failure, out_of_fuel, read_request,
}
use scety.Listener.Read.Checked.{Passed, read_request-Passed}
use scety.Listener.Read.Taken.{TakenFrom, read_request-Taken}
use scety.Listener.Socket.Stream.{stream}
use scety.Listener.Forward.{upstream_headers, final_buf}
use scety.Listener.Process.{
  World, Connect, connected, refused, timed_out, Reply, as_usize, answer, forward, on_request,
  on_outcome, process_request_inner,
}

answer-upstream : (code : ℕ) (s : Socket) → (answer code s).upstream ≡ none
unfolding answer
answer-upstream code s = ground arith

pub Connect-cases :
    (c : Connect)
    → (c ≡ timed_out)
      ⊎ ((c ≡ refused)
          ⊎ ((arrivals : List Arrival) × (write_fails : Option ℕ) × c
                ≡ connected arrivals write_fails))
Connect-cases timed_out = inl refl
Connect-cases refused = inr (inl refl)
Connect-cases (connected arrivals write_fails) = inr (inr (arrivals, write_fails, refl))

-- The bytes are those of a whole write to the upstream, or of one that fails.
abbrev pub Wrote : World → ℕ → Bytes → Bytes → Type 0
Wrote world port whole bytes =
    (arrivals : List Arrival) × (((world.connect port ≡ connected arrivals none) × (bytes ≡ whole))
      ⊎ ((n : ℕ) × (world.connect port ≡ connected arrivals (some n)) × (bytes ≡ take n whole)))

-- What is written of a request.
abbrev pub forwarded : ScetyConfig → Text → Request → Bytes
forwarded cfg client_ip q = final_buf q.received (upstream_headers cfg q.headers_config client_ip)

module _ (cfg : ScetyConfig) (world : World) (client_ip : Text) (max_buf : ℕ) where
  forward-upstream :
      (q : Request) (s : Socket) (p port : ℕ) (bytes : Bytes) (arrivals : List Arrival)
      (write_fails : Option ℕ)
      → world.connect p ≡ connected arrivals write_fails
      → (forward cfg world client_ip max_buf q p s arrivals write_fails).upstream
        ≡ some (port, bytes)
      → (p ≡ port) × Wrote world port (forwarded cfg client_ip q) bytes
  unfolding forward
  forward-upstream q s p port bytes arrivals none joined e =
      let same : p ≡ port = ground arith in
      let to : world.connect port ≡ connected arrivals none =
        ap world.connect (sym same) ∙ joined in
      (same, (arrivals, inl (to, ground arith)))
  forward-upstream q s p port bytes arrivals (some n) joined e =
      let same : p ≡ port = ground arith in
      let to : world.connect port ≡ connected arrivals (some n) =
        ap world.connect (sym same) ∙ joined in
      (same, (arrivals, inr (n, to, ground arith)))

  on_request-upstream :
      (q : Request) (s : Socket) (port : ℕ) (bytes : Bytes)
      → (on_request cfg world client_ip max_buf q s).upstream ≡ some (port, bytes)
      → (q.target_port ≡ some port) × Wrote world port (forwarded cfg client_ip q) bytes
  unfolding on_request
  on_request-upstream q s port bytes e = elim (Option-cases q.target_port) [
    | inl no_port ↦ absurd (ground (arith, no_port, answer-upstream 502 s))
    | inr (p, named) ↦ elim (Connect-cases (world.connect p)) [
      | inl late ↦ absurd (ground (arith, named, late, answer-upstream 504 s))
      | inr (inl down) ↦ absurd (ground (arith, named, down, answer-upstream 502 s))
      | inr (inr (arrivals, write_fails, joined)) ↦
          let to : on_request cfg world client_ip max_buf q s
              ≡ forward cfg world client_ip max_buf q p s arrivals write_fails =
            rw (on_request, named, joined) refl in
          let (same, wrote) =
            forward-upstream q s p port bytes arrivals write_fails joined
              (ap (λ (x : Reply). x.upstream) (sym to) ∙ e) in
          (named ∙ ap some same, wrote)
    ]
  ]

  on_outcome-upstream :
      (o : Outcome) (s : Socket) (port : ℕ) (bytes : Bytes)
      → (on_outcome cfg world client_ip max_buf o s).upstream ≡ some (port, bytes)
      → (q : Request) × (o ≡ request q)
        × (q.target_port ≡ some port)
        × Wrote world port (forwarded cfg client_ip q) bytes
  unfolding on_outcome
  on_outcome-upstream (request q) s port bytes e =
      let (named, sent) = on_request-upstream q s port bytes e in (q, refl, named, sent)
  on_outcome-upstream nothing s port bytes e = ground (arith, answer-upstream 404 s)
  on_outcome-upstream failure s port bytes e = ground arith
  on_outcome-upstream out_of_fuel s port bytes e = ground arith

-- The reply is that of what was read, or the timeout's.
in_time_or_late :
    (lru : LruCache) (parse : Bytes → Parsed) (cfg : ScetyConfig) (world : World) (client_ip : Text)
    (s : Socket) (r : SearchRouter lru) (buffer : ℤ) (reply : Reply)
    → cfg.client_header_buffer ≡ some buffer
    → process_request_inner lru parse cfg world client_ip s r ≡ some reply
    → (reply
        ≡ on_outcome cfg world client_ip
            (as_usize buffer)
            (read_request lru parse cfg (as_usize buffer) s r).0
            (read_request lru parse cfg (as_usize buffer) s r).1)
      ⊎ ((late : Socket) × reply ≡ answer 408 late)
unfolding process_request_inner
in_time_or_late lru parse cfg world client_ip s r buffer reply set e =
    elim (Option-cases cfg.client_headers_timeout) [
      | inl unlimited ↦ inl (ground (arith, set, e, unlimited))
      | inr (d, limited) ↦ elim (Option-cases world.headers_late) [
        | inl soon ↦ inl (ground (arith, set, e, limited, soon))
        | inr (late, slow) ↦ inr (late, ground (arith, set, e, limited, slow))
      ]
    ]

pub in_time :
    (lru : LruCache) (parse : Bytes → Parsed) (cfg : ScetyConfig) (world : World) (client_ip : Text)
    (s : Socket) (r : SearchRouter lru) (buffer : ℤ) (reply : Reply)
    → cfg.client_header_buffer ≡ some buffer
    → world.headers_late ≡ none
    → process_request_inner lru parse cfg world client_ip s r ≡ some reply
    → reply
      ≡ on_outcome cfg world client_ip
          (as_usize buffer)
          (read_request lru parse cfg (as_usize buffer) s r).0
          (read_request lru parse cfg (as_usize buffer) s r).1
unfolding process_request_inner
in_time lru parse cfg world client_ip s r buffer reply set soon e =
    elim (Option-cases cfg.client_headers_timeout) [
      | inl unlimited ↦ ground (arith, set, e, unlimited)
      | inr (d, limited) ↦ ground (arith, set, e, limited, soon)
    ]

-- If an upstream is sent bytes, then reading the client's stream has handed on a request, whose bytes
-- are the beginning of that stream: its framing is unambiguous, its host is under the label limit and
-- has a configuration, and the upstream's port is the one that this configuration names. What is sent
-- is `final_buf` of these bytes, with the added headers if their head ends with an empty line, and
-- as they are if not; all of it, or its beginning if the write to the upstream fails.
pub process_request_inner-upstream :
    (lru : LruCache) (parse : Bytes → Parsed) (cfg : ScetyConfig) (world : World) (client_ip : Text)
    (s : Socket) (r : SearchRouter lru) (buffer : ℤ) (reply : Reply) (port : ℕ) (bytes : Bytes)
    → cfg.client_header_buffer ≡ some buffer
    → process_request_inner lru parse cfg world client_ip s r ≡ some reply
    → reply.upstream ≡ some (port, bytes)
    → (q : Request) × ((read_request lru parse cfg (as_usize buffer) s r).0 ≡ request q)
      × ((rest : Bytes) × (q.received ++ rest ≡ stream s.arrivals))
      × Passed lru parse cfg (as_usize buffer) r (request q)
      × (q.target_port ≡ some port)
      × Wrote world port (forwarded cfg client_ip q) bytes
unfolding process_request_inner
process_request_inner-upstream lru parse cfg world client_ip s r buffer reply port bytes set e
      sent =
    let max_buf : ℕ = as_usize buffer in
    let outcome : Outcome = (read_request lru parse cfg max_buf s r).0 in
    let s' : Socket = (read_request lru parse cfg max_buf s r).1 in
    elim (in_time_or_late lru parse cfg world client_ip s r buffer reply set e) [
      | inl in_time ↦
          let (q, is, named, same) =
            on_outcome-upstream cfg world client_ip max_buf outcome s' port bytes
              (ap (λ (x : Reply). x.upstream) (sym in_time) ∙ sent) in
          (
            q,
            is,
            (
              stream s'.arrivals,
              subst (λ o. TakenFrom (stream s.arrivals) o s') is
                  (read_request-Taken lru parse cfg max_buf s r),
            ),
            subst (Passed lru parse cfg max_buf r) is
                (read_request-Passed lru parse cfg max_buf s r),
            named,
            same,
          )
      | inr (late, dropped) ↦ absurd (ground (arith, answer-upstream 408 late, dropped, sent))
    ]
