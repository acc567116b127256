-- ===== src/Tests/Network.antt =====
-- Connections and framing.

use scety.Prelude.{◌≡◌, ◌↔◌, pos, none, some, List, [], ◌∷◌}
use scety.Text.{Text, codes}
use scety.IpLimit.{IpAddr, v4, try_acquire}
use scety.IpLimit.Steps.{Server, arrive, accept, Reach, start, next}
use scety.IpLimit.Bounded.{Counted, Reach-Counted, try_acquire-zero_limit}
use scety.Listener.Framing.{
  Header, ok, validate_framing_headers, content_length_name, transfer_encoding_name,
}
use scety.Listener.Framing.Laws.{
  values, first_or, last_or, Same, Unambiguous, validate_framing_headers_iff,
}

abbrev at_start : Server
at_start = record { connections = λ _. none; guards = [] }

abbrev address : IpAddr
address = v4 2_130_706_433

abbrev one_client : Server
one_client = accept address (pos 1) at_start

one_client-Reach : Reach (pos 1) one_client
one_client-Reach = next start (arrive at_start address)

Reach-Counted_example : Counted 1 one_client
Reach-Counted_example = Reach-Counted 1 one_client-Reach

try_acquire-zero_limit_example :
    ((try_acquire address (pos 0) at_start.connections).1 ≡ none)
    × ((try_acquire address (pos 0) at_start.connections).0 address ≡ some 0)
try_acquire-zero_limit_example = try_acquire-zero_limit address start

abbrev header : Text → Text → Header
header name value = record { name = name; value = value }

abbrev both : List Header
both =
    header (codes "Content-Length") (codes "5")
    ∷ header (codes "Transfer-Encoding") (codes "chunked")
    ∷ []

validate_framing_headers_iff_example : (validate_framing_headers both ≡ ok) ↔ (
    Same none (values content_length_name both)
    × Unambiguous
        (first_or none (values content_length_name both))
        (last_or none (values transfer_encoding_name both)))
validate_framing_headers_iff_example = validate_framing_headers_iff both
