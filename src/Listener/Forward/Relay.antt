-- ===== src/Listener/Forward/Relay.antt =====
-- What `relay_upstream_response` writes to the client.
use scety.Prelude.{
  ℕ, ◌*◌, ◌≤◌, ◌≡◌, ◌⊎◌, min, Bool, false, none, some, List, ◌++◌, leb, if◌then◌else◌, length,
  is_empty, map,
}
use scety.Text.{Text}
use scety.Text.Utf8.{Bytes}
use scety.Listener.Strip.{find_head_end, rewrite_head}
use scety.Listener.Strip.Head.{HasHead}
use scety.Listener.Socket.{Arrival}
use scety.Listener.Socket.Stream.{stream, Ended, Fails}
use scety.Listener.Forward.{Relayed, copied, closed, broken, out_of_fuel, relay_head, relay_loop}

module _ (writable : Bool) (extra_headers : List (Text × Text)) (max_buf : ℕ)
    (upstream : List Arrival) where
  -- What has been received is the beginning of the upstream's stream, and this is still to come.
  abbrev pub Received : Bytes → List Arrival → Type 0
  Received received rest = received ++ stream rest ≡ stream upstream

  -- The relay goes on with `copy_bidirectional` when the head is there, which is rewritten, or when
  -- the buffer is full without one, which is passed on as it is; at the end of the stream all that was
  -- received is passed on; and only a failure or a client that cannot be written to breaks it.
  abbrev pub Relays : Relayed → Type 0
  Relays (copied written rest) =
      (received : Bytes) × Received received rest
      × ((written ≡ received) × (¬ HasHead received) × (max_buf ≤ length received)
          ⊎ ((pos : ℕ) × (find_head_end received ≡ some pos)
              × (written ≡ rewrite_head received pos (map (λ h. h.0) extra_headers) extra_headers)))
  Relays (closed written) =
      (rest : List Arrival) × Received written rest × Ended rest × (¬ HasHead written)
  Relays broken = (writable ≡ false) ⊎ Fails upstream
  Relays out_of_fuel = ⊥

  -- The arms of the loop after a read.
  abbrev turn : ℕ → ℕ → Bytes → Bytes → List Arrival → Relayed
  turn fuel buf_len received bytes arrivals =
      if is_empty bytes
      then (if writable then closed received else broken)
      else elim (find_head_end (received ++ bytes)) [
        | some pos ↦ relay_head writable extra_headers (received ++ bytes) pos arrivals
        | none ↦
            if leb buf_len (length (received ++ bytes))
            then (if leb max_buf buf_len
                then (if writable then copied (received ++ bytes) arrivals else broken)
                else relay_loop writable extra_headers fuel max_buf (min (buf_len * 2) max_buf)
                    (received ++ bytes) arrivals)
            else relay_loop writable extra_headers fuel max_buf buf_len (received ++ bytes) arrivals
      ]
