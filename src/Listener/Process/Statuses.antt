-- ===== src/Listener/Process/Statuses.antt =====
-- Which statuses a client is sent for one connection, and why.
use scety.Prelude.{ℕ, ◌≡◌, Option, none, some, List, [], ◌∷◌, ◌++◌}
use scety.Text.{Text}
use scety.Text.Utf8.{Bytes}
use scety.Config.Global.{ScetyConfig}
use scety.SearchRouter.{LruCache, SearchRouter}
use scety.Listener.Socket.{Arrival, Socket}
use scety.Listener.Socket.Stream.{Fails}
use scety.Listener.Read.{Parsed, Request, request, read_request}
use scety.Listener.Read.Told.{Refusal}
use scety.Listener.Process.{World, connected, refused, timed_out, Reply}

module _ (lru : LruCache) (parse : Bytes → Parsed) (cfg : ScetyConfig) (max_buf : ℕ)
    (client : Socket) (router : SearchRouter lru) (world : World) where
  -- Reading hands on a request whose configuration names this upstream, or none.
  abbrev pub Asks : (port : Option ℕ) → Type 0
  Asks port =
      (q : Request) × ((read_request lru parse cfg max_buf client router).0 ≡ request q)
      × (q.target_port ≡ port)

  -- The statuses, each with its reason: reading refuses a request, and 404 comes behind its status if
  -- it has one; a read fails; there is no upstream, or it refuses the connection, or the attempt to
  -- connect times out; or the upstream answers itself.
  pub data Statuses : List ℕ → Type 0 where
    not_found :
        {codes : List ℕ}
        → Refusal lru parse cfg max_buf client router codes
        → Statuses (codes ++ 404 ∷ [])
    read_fails : Fails client.arrivals → Statuses []
    no_upstream : Asks none → Statuses (502 ∷ [])
    bad_gateway : (port : ℕ) → Asks (some port) → world.connect port ≡ refused → Statuses (502 ∷ [])
    gateway_timeout :
        (port : ℕ) → Asks (some port) → world.connect port ≡ timed_out → Statuses (504 ∷ [])
    proxied :
        (port : ℕ) (arrivals : List Arrival) (write_fails : Option ℕ)
        → Asks (some port)
        → world.connect port ≡ connected arrivals write_fails
        → Statuses []

  abbrev pub Sends : Reply → Type 0
  Sends reply =
      (codes : List ℕ) × Statuses codes × (Socket.sent reply.client ≡ client.sent ++ codes)
