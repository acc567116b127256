-- ===== src/Listener/Socket.antt =====
-- A client's or an upstream's TCP stream, as far as the proxy sees it.
use scety.Prelude.{
  ℕ, Bool, Option, none, some, List, [], ◌∷◌, ◌++◌, if◌then◌else◌, take, drop, is_empty,
}
use scety.Text.Utf8.{Bytes}
pub mod Stream

-- What arrives on a stream: bytes that are there at once, or a failure. The end of the list is the
-- end of the stream.
pub data Arrival : Type 0 where
  arrived : Bytes → Arrival
  failed : Arrival

-- The stream to the client: what it will send, the statuses of the error pages that it was sent,
-- and whether it can still be written to.
pub record Socket : Type 0 where
  pub arrivals : List Arrival
  pub sent : List ℕ
  pub writable : Bool

-- `Result<usize>` of `read`, with the bytes.
pub data Read : Type 0 where
  got : Bytes → Read
  read_error : Read

-- `socket.read(&mut buf[read_bytes..])` with that much room; the end of the stream, and no room,
-- give no bytes.
unfoldable pub read : ℕ → List Arrival → Read × List Arrival
read room [] = (got [], [])
read room (failed ∷ arrivals) = (read_error, arrivals)
read room (arrived bytes ∷ arrivals) = (
  got (take room bytes),
  if is_empty (drop room bytes) then arrivals else arrived (drop room bytes) ∷ arrivals,
)

-- `send(socket, code, expose_version).await`; `none` is the error of a closed stream.
unfoldable pub send : ℕ → Socket → Option Socket
send code s = if s.writable then some (record s { sent = s.sent ++ code ∷ [] }) else none
