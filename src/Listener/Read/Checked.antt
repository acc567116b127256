-- ===== src/Listener/Read/Checked.antt =====
-- What is known of a request that `read_request` hands on to the upstream.
use scety.Prelude.{
  ℕ, zero, suc, ◌-◌, ◌*◌, ◌≤◌, ◌≡◌, refl, sym, subst, ◌⊎◌, min, inl, inr, false, Option, none, some,
  List, [], ◌++◌, arith, leb, if◌then◌else◌, length, is_empty, option_cases, if_cases, Bool-cases,
}
use scety.Text.{Text}
use scety.Text.Utf8.{Bytes}
use scety.Config.Services.{ClientConfig, UpstreamConfig}
use scety.Config.Global.{ScetyConfig, host_exceeds_label_limit}
use scety.SearchRouter.{LruCache, SearchRouter, find}
use scety.Listener.Framing.{
  Header, Framing, FramingError, ok, err, validate_framing_headers, is_websocket_upgrade,
}
use scety.Listener.Socket.{Socket, got, read_error, read, send}
use scety.Listener.Read.{
  Parsed, complete, Request, Outcome, request, nothing, failure, out_of_fuel, refuse, host_header,
  clean_host, route, on_complete, read_loop, read_request,
}
use scety.Listener.Read.Ends.{after, read-cases, read-fits, Parsed-cases}

-- The port of a service's upstream, `target_config.upstream.as_ref().and_then(|u| u.port)`.
abbrev upstream_port : ClientConfig → Option ℕ
upstream_port c = elim c.upstream [ none ↦ none | some u ↦ UpstreamConfig.port u ]

pub Framing-cases : (f : Framing) → (f ≡ ok) ⊎ ((reason : FramingError) × f ≡ err reason)
Framing-cases ok = inl refl
Framing-cases (err reason) = inr (reason, refl)

module _ (lru : LruCache) (parse : Bytes → Parsed) (cfg : ScetyConfig) where
  -- The request is what a found configuration says for its host.
  abbrev Routed : Text → List Header → SearchRouter lru → Request → Type 0
  Routed host headers r q =
      (c : ClientConfig) × ((find lru host r).0 ≡ some c)
      × (q.target_port ≡ upstream_port c)
      × (q.headers_config ≡ c.headers)
      × (q.is_ws ≡ is_websocket_upgrade headers)

  -- The head is complete, its framing is unambiguous, and it names a host under the label limit
  -- that has a configuration.
  abbrev Cleared : List Header → SearchRouter lru → Request → Type 0
  Cleared headers r q =
      (validate_framing_headers headers ≡ ok)
      × ((h : Text) × (host_header headers ≡ some h)
          × (host_exceeds_label_limit cfg (clean_host h) ≡ false)
          × Routed (clean_host h) headers r q)

  abbrev pub Passed : ℕ → SearchRouter lru → Outcome → Type 0
  Passed max_buf r (request q) =
      (length q.received ≤ max_buf)
      × ((headers : List Header) × (parse q.received ≡ complete headers) × Cleared headers r q)
  Passed max_buf r nothing = Unit {0}
  Passed max_buf r failure = Unit {0}
  Passed max_buf r out_of_fuel = Unit {0}

  refuse-Passed :
      (max_buf code : ℕ) (s : Socket) (r : SearchRouter lru)
      → Passed max_buf r (refuse lru parse cfg code s r).0
  refuse-Passed max_buf code s r =
      option_cases (λ (d : Outcome × Socket × SearchRouter lru). Passed max_buf r d.0) (send code s)
        (failure, s, r) (λ s'. (nothing, s', r)) (λ _. tt) (λ s' _. tt)

  route-Passed :
      (max_buf : ℕ) (received : Bytes) (headers : List Header) (h : Text) (s : Socket)
      (r : SearchRouter lru)
      → length received ≤ max_buf
      → parse received ≡ complete headers
      → validate_framing_headers headers ≡ ok
      → host_header headers ≡ some h
      → host_exceeds_label_limit cfg (clean_host h) ≡ false
      → Passed max_buf r (route lru parse cfg received headers (clean_host h) s r).0
  unfolding route
  route-Passed max_buf received headers h s r fits parsed framed named small =
      option_cases (λ (d : Outcome × Socket × SearchRouter lru). Passed max_buf r d.0)
        (find lru (clean_host h) r).0 (nothing, s, (find lru (clean_host h) r).1)
        (λ c. (
          request (record {
            received = received;
            target_port = upstream_port c;
            headers_config = c.headers;
            is_ws = is_websocket_upgrade headers;
          }),
          s,
          (find lru (clean_host h) r).1,
        ))
        (λ _. tt)
        (λ c found.
          (fits, (headers, parsed, (framed, (h, named, small, (c, found, refl, refl, refl))))))

  abbrev pub by_host :
      Bytes → List Header → Socket → SearchRouter lru → Outcome × Socket × SearchRouter lru
  by_host received headers s r = elim (host_header headers) [
    | none ↦ (nothing, s, r)
    | some h ↦
        if host_exceeds_label_limit cfg (clean_host h)
        then refuse lru parse cfg 423 s r
        else route lru parse cfg received headers (clean_host h) s r
  ]

  by_host-Passed :
      (max_buf : ℕ) (received : Bytes) (headers : List Header) (s : Socket) (r : SearchRouter lru)
      → length received ≤ max_buf
      → parse received ≡ complete headers
      → validate_framing_headers headers ≡ ok
      → Passed max_buf r (by_host received headers s r).0
  by_host-Passed max_buf received headers s r fits parsed framed =
      option_cases (λ (d : Outcome × Socket × SearchRouter lru). Passed max_buf r d.0)
        (host_header headers) (nothing, s, r)
        (λ h.
          if host_exceeds_label_limit cfg (clean_host h)
          then refuse lru parse cfg 423 s r
          else route lru parse cfg received headers (clean_host h) s r)
        (λ _. tt)
        (λ h named.
          if_cases (λ (d : Outcome × Socket × SearchRouter lru). Passed max_buf r d.0)
            (host_exceeds_label_limit cfg (clean_host h)) (refuse lru parse cfg 423 s r)
            (route lru parse cfg received headers (clean_host h) s r)
            (λ _. refuse-Passed max_buf 423 s r)
            (λ small. route-Passed max_buf received headers h s r fits parsed framed named small))

  pub on_complete-err :
      (received : Bytes) (headers : List Header) (s : Socket) (r : SearchRouter lru)
      (reason : FramingError)
      → validate_framing_headers headers ≡ err reason
      → on_complete lru parse cfg received headers s r ≡ refuse lru parse cfg 400 s r
  unfolding on_complete
  on_complete-err received headers s r reason e = rw (e, on_complete) refl

  pub on_complete-ok :
      (received : Bytes) (headers : List Header) (s : Socket) (r : SearchRouter lru)
      → validate_framing_headers headers ≡ ok
      → on_complete lru parse cfg received headers s r ≡ by_host received headers s r
  unfolding on_complete
  on_complete-ok received headers s r e = rw (e, on_complete) refl

  on_complete-Passed :
      (max_buf : ℕ) (received : Bytes) (headers : List Header) (s : Socket) (r : SearchRouter lru)
      → length received ≤ max_buf
      → parse received ≡ complete headers
      → Passed max_buf r (on_complete lru parse cfg received headers s r).0
  on_complete-Passed max_buf received headers s r fits parsed =
      elim (Framing-cases (validate_framing_headers headers)) [
        | inl framed ↦
            subst (λ (d : Outcome × Socket × SearchRouter lru). Passed max_buf r d.0)
              (sym (on_complete-ok received headers s r framed))
              (by_host-Passed max_buf received headers s r fits parsed framed)
        | inr (reason, e) ↦
            subst (λ (d : Outcome × Socket × SearchRouter lru). Passed max_buf r d.0)
              (sym (on_complete-err received headers s r reason e)) (refuse-Passed max_buf 400 s r)
      ]

  -- What a round of the loop that has read something comes to.
  pub round-cases :
      (fuel max_buf buf_len : ℕ) (received bytes : Bytes) (s : Socket) (r : SearchRouter lru)
      → (read (buf_len - length received) s.arrivals).0 ≡ got bytes
      → ((read_loop lru parse cfg (suc fuel) max_buf buf_len received s r)
          ≡ (nothing, after (buf_len - length received) s, r))
        ⊎ (((read_loop lru parse cfg (suc fuel) max_buf buf_len received s r)
              ≡ refuse lru parse cfg 431 (after (buf_len - length received) s) r)
            ⊎ (((read_loop lru parse cfg (suc fuel) max_buf buf_len received s r)
                  ≡ read_loop lru parse cfg fuel max_buf buf_len
                      (received ++ bytes)
                      (after (buf_len - length received) s)
                      r)
                ⊎ (((read_loop lru parse cfg (suc fuel) max_buf buf_len received s r)
                      ≡ read_loop lru parse cfg fuel max_buf
                          (min (buf_len * 2) max_buf)
                          (received ++ bytes)
                          (after (buf_len - length received) s)
                          r)
                    ⊎ ((headers : List Header) × (parse (received ++ bytes) ≡ complete headers)
                        × ((read_loop lru parse cfg (suc fuel) max_buf buf_len received s r)
                            ≡ on_complete lru parse cfg
                                (received ++ bytes)
                                headers
                                (after (buf_len - length received) s)
                                r)))))
  unfolding read_loop
  round-cases fuel max_buf buf_len received bytes s r came = elim (Bool-cases (is_empty bytes)) [
    | inl empty ↦ inl (rw (came, empty, read_loop) refl)
    | inr more ↦ elim (Parsed-cases (parse (received ++ bytes))) [
      | inl stops ↦ inl (rw (came, more, stops, read_loop) refl)
      | inr (inr (headers, done)) ↦
          inr (inr (inr (inr (headers, done, rw (came, more, done, read_loop) refl))))
      | inr (inl waits) ↦ elim (Bool-cases (leb buf_len (length (received ++ bytes)))) [
        | inr room ↦ inr (inr (inl (rw (came, more, waits, room, read_loop) refl)))
        | inl full ↦ elim (Bool-cases (leb max_buf buf_len)) [
          | inl last ↦ inr (inl (rw (came, more, waits, full, last, read_loop) refl))
          | inr larger ↦
              inr (inr (inr (inl (rw (came, more, waits, full, larger, read_loop) refl))))
        ]
      ]
    ]
  ]

  pub read_loop-stopped :
      (fuel max_buf buf_len : ℕ) (received : Bytes) (s : Socket) (r : SearchRouter lru)
      → (read (buf_len - length received) s.arrivals).0 ≡ read_error
      → read_loop lru parse cfg (suc fuel) max_buf buf_len received s r
        ≡ (failure, after (buf_len - length received) s, r)
  unfolding read_loop
  read_loop-stopped fuel max_buf buf_len received s r e = rw (e, read_loop) refl

  by_equation :
      (max_buf : ℕ) (r : SearchRouter lru) {d d' : Outcome × Socket × SearchRouter lru}
      → d ≡ d'
      → Passed max_buf r d'.0
      → Passed max_buf r d.0
  by_equation max_buf r e h =
      subst (λ (d : Outcome × Socket × SearchRouter lru). Passed max_buf r d.0) (sym e) h

  read_loop-Passed :
      (fuel max_buf buf_len : ℕ) (received : Bytes) (s : Socket) (r : SearchRouter lru)
      → buf_len ≤ max_buf
      → length received ≤ buf_len
      → Passed max_buf r (read_loop lru parse cfg fuel max_buf buf_len received s r).0
  unfolding read_loop
  read_loop-Passed zero max_buf buf_len received s r small fits = tt
  read_loop-Passed (suc fuel) max_buf buf_len received s r small fits =
      elim (read-cases (buf_len - length received) s.arrivals) [
        | inl stopped ↦
            by_equation max_buf r (read_loop-stopped fuel max_buf buf_len received s r stopped) tt
        | inr (bytes, came) ↦
            let room : length (received ++ bytes) ≤ buf_len =
              read-fits buf_len received bytes s.arrivals fits came in
            elim (round-cases fuel max_buf buf_len received bytes s r came) [
              | inl e ↦ by_equation max_buf r e tt
              | inr (inl e) ↦
                  by_equation max_buf r e
                    (refuse-Passed max_buf 431 (after (buf_len - length received) s) r)
              | inr (inr (inl e)) ↦ by_equation max_buf r e (
                  read_loop-Passed fuel max_buf buf_len (received ++ bytes)
                    (after (buf_len - length received) s) r small room)
              | inr (inr (inr (inl e))) ↦ by_equation max_buf r e (
                  read_loop-Passed fuel max_buf (min (buf_len * 2) max_buf) (received ++ bytes)
                    (after (buf_len - length received) s) r (ground arith) (ground (arith, room)))
              | inr (inr (inr (inr (headers, parsed, e)))) ↦ by_equation max_buf r e (
                  on_complete-Passed max_buf (received ++ bytes) headers
                    (after (buf_len - length received) s) r (omega (arith, room, small)) parsed)
            ]
      ]

  -- A request that is handed on fits in the buffer's limit, its head is complete, its framing is
  -- unambiguous, it names a host under the label limit, and its port and headers are those of the
  -- configuration that the router finds for this host.
  pub read_request-Passed :
      (max_buf : ℕ) (s : Socket) (r : SearchRouter lru)
      → Passed max_buf r (read_request lru parse cfg max_buf s r).0
  unfolding read_request
  read_request-Passed max_buf s r =
      read_loop-Passed (suc max_buf) max_buf (min max_buf 4096) [] s r (ground arith) (omega arith)
