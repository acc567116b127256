-- ===== src/Listener/Read/Taken.antt =====
-- Which bytes of the client's stream a request that `read_request` hands on consists of.
use scety.Prelude.{
  ℕ, zero, suc, ◌-◌, ◌*◌, ◌≡◌, refl, sym, ap, subst, ◌∙◌, min, inl, inr, List, [], ◌++◌, length,
  option_cases, if_cases, append_assoc, if◌then◌else◌,
}
use scety.Text.Utf8.{Bytes}
use scety.Config.Global.{ScetyConfig, host_exceeds_label_limit}
use scety.SearchRouter.{LruCache, SearchRouter, find}
use scety.Listener.Framing.{Header, validate_framing_headers}
use scety.Listener.Socket.{Socket, send}
use scety.Listener.Socket.Stream.{stream, read-stream}
use scety.Listener.Read.{
  Parsed, Outcome, request, nothing, failure, out_of_fuel, refuse, host_header, clean_host, route,
  on_complete, read_loop, read_request,
}
use scety.Listener.Read.Ends.{after, read-cases}
use scety.Listener.Read.Checked.{
  by_host, Framing-cases, on_complete-err, on_complete-ok, round-cases, read_loop-stopped,
}

-- The bytes of a request, and what is still to come, are the client's stream.
abbrev pub TakenFrom : Bytes → Outcome → Socket → Type 0
TakenFrom all (request q) s = q.received ++ stream s.arrivals ≡ all
TakenFrom all nothing s = Unit {0}
TakenFrom all failure s = Unit {0}
TakenFrom all out_of_fuel s = Unit {0}

module _ (lru : LruCache) (parse : Bytes → Parsed) (cfg : ScetyConfig) (all : Bytes) where
  abbrev Read : Type 0
  Read = Outcome × Socket × SearchRouter lru

  abbrev Taken : Read → Type 0
  Taken d = TakenFrom all d.0 d.1

  refuse-Taken :
      (code : ℕ) (s : Socket) (r : SearchRouter lru) → Taken (refuse lru parse cfg code s r)
  refuse-Taken code s r =
      option_cases Taken (send code s) (failure, s, r) (λ s'. (nothing, s', r)) (λ _. tt)
        (λ s' _. tt)

  by_host-Taken :
      (received : Bytes) (headers : List Header) (s : Socket) (r : SearchRouter lru)
      → received ++ stream s.arrivals ≡ all
      → Taken (by_host lru parse cfg received headers s r)
  unfolding route
  by_host-Taken received headers s r e =
      option_cases Taken (host_header headers) (nothing, s, r)
        (λ h.
          if host_exceeds_label_limit cfg (clean_host h)
          then refuse lru parse cfg 423 s r
          else route lru parse cfg received headers (clean_host h) s r)
        (λ _. tt)
        (λ h named.
          if_cases Taken (host_exceeds_label_limit cfg (clean_host h))
            (refuse lru parse cfg 423 s r) (route lru parse cfg received headers (clean_host h) s r)
            (λ _. refuse-Taken 423 s r)
            (λ _. option_cases Taken (find lru (clean_host h) r).0 _ _ (λ _. tt) (λ c found. e)))

  by_equation : {d d' : Read} → d ≡ d' → Taken d' → Taken d
  by_equation e h = subst Taken (sym e) h

  on_complete-Taken :
      (received : Bytes) (headers : List Header) (s : Socket) (r : SearchRouter lru)
      → received ++ stream s.arrivals ≡ all
      → Taken (on_complete lru parse cfg received headers s r)
  on_complete-Taken received headers s r e =
      elim (Framing-cases (validate_framing_headers headers)) [
        | inl framed ↦
            by_equation (on_complete-ok lru parse cfg received headers s r framed)
              (by_host-Taken received headers s r e)
        | inr (reason, bad) ↦
            by_equation (on_complete-err lru parse cfg received headers s r reason bad)
              (refuse-Taken 400 s r)
      ]

  read_loop-Taken :
      (fuel max_buf buf_len : ℕ) (received : Bytes) (s : Socket) (r : SearchRouter lru)
      → received ++ stream s.arrivals ≡ all
      → Taken (read_loop lru parse cfg fuel max_buf buf_len received s r)
  unfolding read_loop
  read_loop-Taken zero max_buf buf_len received s r order = tt
  read_loop-Taken (suc fuel) max_buf buf_len received s r order =
      let s' : Socket = after (buf_len - length received) s in
      elim (read-cases (buf_len - length received) s.arrivals) [
        | inl stopped ↦
            by_equation (read_loop-stopped lru parse cfg fuel max_buf buf_len received s r stopped)
              tt
        | inr (bytes, came) ↦
            let order' : (received ++ bytes) ++ stream s'.arrivals ≡ all =
              append_assoc received bytes (stream s'.arrivals)
              ∙ ap (λ w. received ++ w)
                  (read-stream (buf_len - length received) s.arrivals bytes came)
              ∙ order in
            elim (round-cases lru parse cfg fuel max_buf buf_len received bytes s r came) [
              | inl e ↦ by_equation e tt
              | inr (inl e) ↦ by_equation e (refuse-Taken 431 s' r)
              | inr (inr (inl e)) ↦
                  by_equation e
                    (read_loop-Taken fuel max_buf buf_len (received ++ bytes) s' r order')
              | inr (inr (inr (inl e))) ↦ by_equation e (
                  read_loop-Taken fuel max_buf (min (buf_len * 2) max_buf) (received ++ bytes) s' r
                    order')
              | inr (inr (inr (inr (headers, parsed, e)))) ↦
                  by_equation e (on_complete-Taken (received ++ bytes) headers s' r order')
            ]
      ]

-- The bytes of a request that is handed on are the beginning of the client's stream.
pub read_request-Taken :
    (lru : LruCache) (parse : Bytes → Parsed) (cfg : ScetyConfig) (max_buf : ℕ) (s : Socket)
    (r : SearchRouter lru)
    → TakenFrom
        (stream s.arrivals)
        (read_request lru parse cfg max_buf s r).0
        (read_request lru parse cfg max_buf s r).1
unfolding read_request
read_request-Taken lru parse cfg max_buf s r =
    read_loop-Taken lru parse cfg (stream s.arrivals) (suc max_buf) max_buf (min max_buf 4096) [] s
      r refl
