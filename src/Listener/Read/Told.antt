-- ===== src/Listener/Read/Told.antt =====
-- What the client has been sent when `read_request` ends, and why.
use scety.Prelude.{
  ℕ, zero, suc, ◌-◌, ◌*◌, ◌≤◌, ◌<◌, ◌≡◌, refl, sym, ap, subst, ◌∙◌, min, inl, inr, true, false,
  none, some, List, [], ◌∷◌, ◌++◌, arith, leb, length, append_assoc, is_empty, option_cases,
  if_cases, Bool-cases, append-nil, if◌then◌else◌,
}
use scety.Text.{Text}
use scety.Text.Utf8.{Bytes}
use scety.Config.Global.{ScetyConfig, host_exceeds_label_limit}
use scety.SearchRouter.{LruCache, SearchRouter, find}
use scety.Listener.Framing.{Header, FramingError, ok, err, validate_framing_headers}
use scety.Listener.Socket.{Arrival, Socket, got, read, send}
use scety.Listener.Socket.Stream.{
  stream, read-stream, Ended, Fails, read-Ended, read-Fails, read_rest-Fails,
}
use scety.Listener.Read.{
  Parsed, complete, partial, malformed, Outcome, request, nothing, failure, out_of_fuel, refuse,
  host_header, clean_host, route, on_complete, read_loop, read_request,
}
use scety.Listener.Read.Ends.{after, read-cases, read-fits, Parsed-cases}
use scety.Listener.Read.Checked.{
  by_host, Framing-cases, on_complete-err, on_complete-ok, read_loop-stopped,
}

-- A client that can be written to is sent the status behind the others.
pub send-writable :
    (code : ℕ) (s : Socket)
    → s.writable ≡ true
    → send code s ≡ some (record s { sent = s.sent ++ code ∷ [] })
unfolding send
send-writable code s writes =
    ap (λ b. if b then some (record s { sent = s.sent ++ code ∷ [] }) else none) writes

module _ (lru : LruCache) (parse : Bytes → Parsed) (cfg : ScetyConfig) (max_buf : ℕ)
    (client : Socket) (router : SearchRouter lru) where
  -- What has been received is the beginning of the client's stream, and this is still to come.
  abbrev pub Received : Bytes → List Arrival → Type 0
  Received received rest = received ++ stream rest ≡ stream client.arrivals

  -- Its head is complete, with these headers.
  abbrev pub Head : List Header → Type 0
  Head headers =
      (received : Bytes) × ((rest : List Arrival) × Received received rest)
      × (parse received ≡ complete headers)

  -- The status with which reading refuses a request, or none, and the reason.
  pub data Refusal : List ℕ → Type 0 where
    closed :
        (received : Bytes) (rest : List Arrival) → Received received rest → Ended rest → Refusal []
    unreadable :
        (received : Bytes) (rest : List Arrival)
        → Received received rest
        → parse received ≡ malformed
        → Refusal []
    no_host :
        (headers : List Header)
        → Head headers
        → validate_framing_headers headers ≡ ok
        → host_header headers ≡ none
        → Refusal []
    no_service :
        (headers : List Header) (h : Text)
        → Head headers
        → validate_framing_headers headers ≡ ok
        → host_header headers ≡ some h
        → host_exceeds_label_limit cfg (clean_host h) ≡ false
        → (find lru (clean_host h) router).0 ≡ none
        → Refusal []
    bad_request :
        (headers : List Header) (reason : FramingError)
        → Head headers
        → validate_framing_headers headers ≡ err reason
        → Refusal (400 ∷ [])
    locked :
        (headers : List Header) (h : Text)
        → Head headers
        → validate_framing_headers headers ≡ ok
        → host_header headers ≡ some h
        → host_exceeds_label_limit cfg (clean_host h) ≡ true
        → Refusal (423 ∷ [])
    too_large :
        (received : Bytes) (rest : List Arrival)
        → Received received rest
        → parse received ≡ partial
        → max_buf ≤ length received
        → Refusal (431 ∷ [])

  -- The statuses that the client has been sent after reading: only reading that ends with nothing has
  -- sent one, and it fails only if the stream does.
  abbrev pub ToldFrom : Outcome → List ℕ → Type 0
  ToldFrom nothing sent = (codes : List ℕ) × Refusal codes × (sent ≡ client.sent ++ codes)
  ToldFrom (request q) sent = sent ≡ client.sent
  ToldFrom failure sent = (sent ≡ client.sent) × Fails client.arrivals
  ToldFrom out_of_fuel sent = sent ≡ client.sent

  abbrev Read : Type 0
  Read = Outcome × Socket × SearchRouter lru

  -- And the client can still be written to.
  abbrev pub Told : Read → Type 0
  Told d = (Socket.writable d.1 ≡ true) × ToldFrom d.0 (Socket.sent d.1)

  -- The client's stream while it is read.
  abbrev Reading : Socket → Type 0
  Reading s = (s.writable ≡ true) × (s.sent ≡ client.sent)

  quiet : (s : Socket) (r : SearchRouter lru) → Reading s → Refusal [] → Told (nothing, s, r)
  quiet s r (writes, same) why = (writes, ([], why, same ∙ sym (append-nil client.sent)))

  by_equation : {d d' : Read} → d ≡ d' → Told d' → Told d
  by_equation e h = subst Told (sym e) h

  refuse-Told :
      (code : ℕ) (s : Socket) (r : SearchRouter lru)
      → Reading s
      → Refusal (code ∷ [])
      → Told (refuse lru parse cfg code s r)
  refuse-Told code s r (writes, same) why =
      by_equation {d' = (nothing, record s { sent = s.sent ++ code ∷ [] }, r)}
        (ap (λ o. elim o [ none ↦ (failure, s, r) | some s' ↦ (nothing, s', r) ])
          (send-writable code s writes))
        (writes, (code ∷ [], why, ap (λ k. k ++ code ∷ []) same))

  by_host-Told :
      (received : Bytes) (headers : List Header) (s : Socket)
      → Reading s
      → Head headers
      → validate_framing_headers headers ≡ ok
      → Told (by_host lru parse cfg received headers s router)
  unfolding route
  by_host-Told received headers s reading head framed =
      option_cases Told (host_header headers) (nothing, s, router)
        (λ h.
          if host_exceeds_label_limit cfg (clean_host h)
          then refuse lru parse cfg 423 s router
          else route lru parse cfg received headers (clean_host h) s router)
        (λ unnamed. quiet s router reading (no_host headers head framed unnamed))
        (λ h named.
          if_cases Told (host_exceeds_label_limit cfg (clean_host h))
            (refuse lru parse cfg 423 s router)
            (route lru parse cfg received headers (clean_host h) s router)
            (λ long. refuse-Told 423 s router reading (locked headers h head framed named long))
            (λ short.
              option_cases Told (find lru (clean_host h) router).0 _ _
                (λ lost.
                  quiet s (find lru (clean_host h) router).1 reading
                    (no_service headers h head framed named short lost))
                (λ c found. reading)))

  on_complete-Told :
      (received : Bytes) (headers : List Header) (s : Socket)
      → Reading s
      → Head headers
      → Told (on_complete lru parse cfg received headers s router)
  on_complete-Told received headers s reading head =
      elim (Framing-cases (validate_framing_headers headers)) [
        | inl framed ↦
            by_equation (on_complete-ok lru parse cfg received headers s router framed)
              (by_host-Told received headers s reading head framed)
        | inr (reason, e) ↦
            by_equation (on_complete-err lru parse cfg received headers s router reason e)
              (refuse-Told 400 s router reading (bad_request headers reason head e))
      ]

  -- A round of the loop that has read something.
  round-Told :
      (fuel buf_len : ℕ) (received bytes : Bytes) (s : Socket)
      → (read (buf_len - length received) s.arrivals).0 ≡ got bytes
      → Reading s
      → Received (received ++ bytes) (Socket.arrivals (after (buf_len - length received) s))
      → (is_empty bytes ≡ true → Refusal [])
      → (is_empty bytes ≡ false
          → leb buf_len (length (received ++ bytes)) ≡ true
          → leb max_buf buf_len ≡ false
          → Told (
              read_loop lru parse cfg fuel max_buf
                (min (buf_len * 2) max_buf)
                (received ++ bytes)
                (after (buf_len - length received) s)
                router))
      → (is_empty bytes ≡ false
          → leb buf_len (length (received ++ bytes)) ≡ false
          → Told (
              read_loop lru parse cfg fuel max_buf buf_len
                (received ++ bytes)
                (after (buf_len - length received) s)
                router))
      → Told (read_loop lru parse cfg (suc fuel) max_buf buf_len received s router)
  unfolding read_loop
  round-Told fuel buf_len received bytes s came reading order ends grown again =
      let s' : Socket = after (buf_len - length received) s in
      let all : Bytes = received ++ bytes in
      let to : (d' : Read)
          → read_loop lru parse cfg (suc fuel) max_buf buf_len received s router ≡ d'
          → Told d'
          → Told (read_loop lru parse cfg (suc fuel) max_buf buf_len received s router) =
        λ d' e h. by_equation e h in
      elim (Bool-cases (is_empty bytes)) [
        | inl empty ↦
            to ((nothing, s', router)) (rw (came, empty, read_loop) refl)
              (quiet s' router reading (ends empty))
        | inr more ↦ elim (Parsed-cases (parse (received ++ bytes))) [
          | inl stops ↦
              to ((nothing, s', router)) (rw (came, more, stops, read_loop) refl)
                (quiet s' router reading (unreadable all s'.arrivals order stops))
          | inr (inr (headers, done)) ↦
              to (on_complete lru parse cfg all headers s' router)
                (rw (came, more, done, read_loop) refl)
                (on_complete-Told all headers s' reading (all, (s'.arrivals, order), done))
          | inr (inl waits) ↦ elim (Bool-cases (leb buf_len (length (received ++ bytes)))) [
            | inr room ↦
                to (read_loop lru parse cfg fuel max_buf buf_len all s' router)
                  (rw (came, more, waits, room, read_loop) refl) (again more room)
            | inl full ↦ elim (Bool-cases (leb max_buf buf_len)) [
              | inl last ↦
                  to (refuse lru parse cfg 431 s' router)
                    (rw (came, more, waits, full, last, read_loop) refl)
                    (refuse-Told 431 s' router reading
                      (too_large all s'.arrivals order waits (ground arith)))
              | inr larger ↦
                  to
                    (read_loop lru parse cfg fuel max_buf (min (buf_len * 2) max_buf) all s' router)
                    (rw (came, more, waits, full, larger, read_loop) refl) (grown more full larger)
            ]
          ]
        ]
      ]

  -- The loop, from a state in which the buffer has room.
  read_loop-Told :
      (fuel buf_len : ℕ) (received : Bytes) (s : Socket)
      → buf_len ≤ max_buf
      → length received < buf_len
      → Reading s
      → Received received s.arrivals
      → (Fails s.arrivals → Fails client.arrivals)
      → Told (read_loop lru parse cfg fuel max_buf buf_len received s router)
  unfolding read_loop
  read_loop-Told zero buf_len received s small fits reading order fails = reading
  read_loop-Told (suc fuel) buf_len received s small fits reading order fails =
      let s' : Socket = after (buf_len - length received) s in
      elim (read-cases (buf_len - length received) s.arrivals) [
        | inl stopped ↦
            by_equation
              (read_loop-stopped lru parse cfg fuel max_buf buf_len received s router stopped)
              (
                reading.0,
                (reading.1, fails (read-Fails (buf_len - length received) s.arrivals stopped)),
              )
        | inr (bytes, came) ↦
            let room : length (received ++ bytes) ≤ buf_len =
              read-fits buf_len received bytes s.arrivals (ground arith) came in
            let order' : Received (received ++ bytes) s'.arrivals =
              append_assoc received bytes (stream s'.arrivals)
              ∙ ap (λ w. received ++ w)
                  (read-stream (buf_len - length received) s.arrivals bytes came)
              ∙ order in
            let later : Fails s'.arrivals → Fails client.arrivals =
              λ f. fails (read_rest-Fails (buf_len - length received) s.arrivals f) in
            round-Told fuel buf_len received bytes s came reading order'
              (λ empty. closed received s.arrivals order (
                read-Ended (buf_len - length received) s.arrivals bytes (omega (arith, fits)) came
                  empty))
              (λ more full larger.
                read_loop-Told fuel (min (buf_len * 2) max_buf) (received ++ bytes) s'
                  (ground arith) (ground (arith, room, fits)) reading order' later)
              (λ more short.
                read_loop-Told fuel buf_len (received ++ bytes) s' small (ground (arith, short))
                  reading order' later)
      ]

  pub read_request-Told :
      0 < max_buf → client.writable ≡ true → Told (read_request lru parse cfg max_buf client router)
  unfolding read_request
  read_request-Told some_room writes =
      read_loop-Told (suc max_buf) (min max_buf 4096) [] client (ground arith) (ground arith)
        (writes, refl) refl (λ f. f)
