-- ===== src/Listener/Read/Ends.antt =====
-- `read_request` always ends, and never holds more than `max_buf` bytes.
use scety.Prelude.{
  ℕ, zero, suc, ◌-◌, ◌*◌, ◌≤◌, ◌<◌, ◌≡◌, refl, ◌≢◌, ◌⊎◌, min, inl, inr, true, false, List, [], ◌∷◌,
  ◌++◌, arith, leb, length, take, is_empty, length-append,
}
use scety.Text.{Text}
use scety.Text.Utf8.{Bytes}
use scety.Config.Global.{ScetyConfig}
use scety.SearchRouter.{LruCache, SearchRouter}
use scety.Listener.Framing.{Header}
use scety.Listener.Socket.{Arrival, arrived, failed, Socket, got, read_error, read}
use scety.Listener.Read.{
  Parsed, complete, partial, malformed, out_of_fuel, refuse, route, on_complete, read_loop,
  read_request,
}

length-take_le {ℓ} : {A : Type ℓ} (n : ℕ) (xs : List A) → length (take n xs) ≤ n
length-take_le zero xs = omega arith
length-take_le (suc n) [] = omega arith
length-take_le (suc n) (x ∷ xs) = omega (arith, length-take_le n xs)

-- A read gives no more than there is room for.
pub read-room :
    (room : ℕ) (arrivals : List Arrival) (bytes : Bytes)
    → (read room arrivals).0 ≡ got bytes
    → length bytes ≤ room
unfolding read
read-room room [] bytes e = ground arith
read-room room (failed ∷ s) bytes e = absurd (cc)
read-room room (arrived b ∷ s) bytes e = ground (arith, length-take_le room b)

pub read-cases :
    (room : ℕ) (arrivals : List Arrival)
    → ((read room arrivals).0 ≡ read_error) ⊎ ((bytes : Bytes) × (read room arrivals).0 ≡ got bytes)
unfolding read
read-cases room [] = inr ([], refl)
read-cases room (failed ∷ s) = inl refl
read-cases room (arrived b ∷ s) = inr (take room b, refl)

pub read-fits :
    (buf_len : ℕ) (received bytes : Bytes) (arrivals : List Arrival)
    → length received ≤ buf_len
    → (read (buf_len - length received) arrivals).0 ≡ got bytes
    → length (received ++ bytes) ≤ buf_len
read-fits buf_len received bytes arrivals fits came =
    ground (
      arith,
      length-append received bytes,
      read-room (buf_len - length received) arrivals bytes came,
    )

pub is_empty-length : (bytes : Bytes) → is_empty bytes ≡ false → 0 < length bytes
is_empty-length [] e = absurd (cc)
is_empty-length (b ∷ bytes) e = omega arith

-- The stream after a read.
abbrev pub after : ℕ → Socket → Socket
after room s = record s { arrivals = (read room s.arrivals).1 }

pub Parsed-cases :
    (p : Parsed)
    → (p ≡ malformed) ⊎ ((p ≡ partial) ⊎ ((headers : List Header) × p ≡ complete headers))
Parsed-cases malformed = inl refl
Parsed-cases partial = inr (inl refl)
Parsed-cases (complete headers) = inr (inr (headers, refl))

module _ (lru : LruCache) (parse : Bytes → Parsed) (cfg : ScetyConfig) where
  refuse-ends :
      (code : ℕ) (s : Socket) (r : SearchRouter lru)
      → (refuse lru parse cfg code s r).0 ≢ out_of_fuel
  refuse-ends code s r = λ e. ground arith

  route-ends :
      (received : Bytes) (headers : List Header) (host : Text) (s : Socket) (r : SearchRouter lru)
      → (route lru parse cfg received headers host s r).0 ≢ out_of_fuel
  unfolding route
  route-ends received headers host s r = λ e. ground arith

  on_complete-ends :
      (received : Bytes) (headers : List Header) (s : Socket) (r : SearchRouter lru)
      → (on_complete lru parse cfg received headers s r).0 ≢ out_of_fuel
  unfolding on_complete
  on_complete-ends received headers s r =
      λ e. ground (arith, refuse-ends 400 s r, refuse-ends 423 s r, route-ends received headers)

  -- What the loop does with the bytes of a read ends when the loop does.
  read_loop-turn :
      (fuel max_buf buf_len : ℕ) (received bytes : Bytes) (s : Socket) (r : SearchRouter lru)
      → (read (buf_len - length received) s.arrivals).0 ≡ got bytes
      → (is_empty bytes ≡ false
          → (read_loop lru parse cfg fuel max_buf buf_len
              (received ++ bytes)
              (after (buf_len - length received) s)
              r).0
            ≢ out_of_fuel)
      → (is_empty bytes ≡ false
          → leb buf_len (length (received ++ bytes)) ≡ true
          → leb max_buf buf_len ≡ false
          → (read_loop lru parse cfg fuel max_buf
              (min (buf_len * 2) max_buf)
              (received ++ bytes)
              (after (buf_len - length received) s)
              r).0
            ≢ out_of_fuel)
      → (read_loop lru parse cfg (suc fuel) max_buf buf_len received s r).0 ≢ out_of_fuel
  unfolding read_loop
  read_loop-turn fuel max_buf buf_len received bytes s r came again grown =
      elim (Parsed-cases (parse (received ++ bytes))) [
        | inl stops ↦ λ e. ground (arith, came, stops)
        | inr (inl waits) ↦ λ e. ground (arith, came, waits, again, grown)
        | inr (inr (headers, done)) ↦ λ e. ground (
          arith,
          came,
          done,
          on_complete-ends (received ++ bytes) headers (after (buf_len - length received) s) r,
        )
      ]

  -- A loop that has fuel for the bytes that still fit does not run out of it.
  read_loop-ends :
      (fuel max_buf buf_len : ℕ) (received : Bytes) (s : Socket) (r : SearchRouter lru)
      → buf_len ≤ max_buf
      → length received ≤ buf_len
      → max_buf - length received < fuel
      → (read_loop lru parse cfg fuel max_buf buf_len received s r).0 ≢ out_of_fuel
  unfolding read_loop
  read_loop-ends zero max_buf buf_len received s r small fits enough = absurd (omega arith)
  read_loop-ends (suc fuel) max_buf buf_len received s r small fits enough =
      elim (read-cases (buf_len - length received) s.arrivals) [
        | inl stopped ↦ λ e. ground (arith, stopped)
        | inr (bytes, came) ↦
            read_loop-turn fuel max_buf buf_len received bytes s r came
              (λ more.
                read_loop-ends fuel max_buf buf_len (received ++ bytes)
                  (after (buf_len - length received) s) r small
                  (ground (arith, read-fits buf_len received bytes s.arrivals fits came))
                  (ground (
                    arith,
                    length-append received bytes,
                    is_empty-length bytes more,
                    read-fits buf_len received bytes s.arrivals fits came,
                  )))
              (λ more full larger.
                read_loop-ends fuel max_buf (min (buf_len * 2) max_buf) (received ++ bytes)
                  (after (buf_len - length received) s) r (ground arith)
                  (ground (arith, read-fits buf_len received bytes s.arrivals fits came))
                  (ground (
                    arith,
                    length-append received bytes,
                    is_empty-length bytes more,
                    read-fits buf_len received bytes s.arrivals fits came,
                  )))
      ]

  -- Whatever arrives, and whatever the buffer's limit is, reading a request ends.
  pub read_request-ends :
      (max_buf : ℕ) (s : Socket) (r : SearchRouter lru)
      → (read_request lru parse cfg max_buf s r).0 ≢ out_of_fuel
  unfolding read_request
  read_request-ends max_buf s r =
      read_loop-ends (suc max_buf) max_buf (min max_buf 4096) [] s r (ground arith) (ground arith)
        (ground arith)
