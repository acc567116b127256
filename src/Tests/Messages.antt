-- ===== src/Tests/Messages.antt =====
-- Requests and responses.
use scety.Prelude.{
  ◌≡◌, ◌≢◌, refl, not, pos, true, false, none, some, [], ◌∷◌, ◌++◌, Any, drop, take,
}
use scety.Text.{Text, codes}
use scety.Text.Utf8.{Bytes}
use scety.Map
use scety.Map.{Map}
use scety.Config.Global.{ScetyConfig}
use scety.SearchRouter
use scety.SearchRouter.{LruCache, SearchRouter}
use scety.Listener.Strip.{
  crlf, split_inclusive, names_header, is_match, find_head_end, header_lines, rewrite_head,
}
use scety.Listener.Strip.Kept.{keep}
use scety.Listener.Strip.Head.{rewrite_head_lem}
use scety.Listener.Socket.{arrived, Socket}
use scety.Listener.Socket.Stream.{stream}
use scety.Listener.Read.{Parsed, complete, Request, request, out_of_fuel, read_request}
use scety.Listener.Read.Ends.{read_request-ends}
use scety.Listener.Read.Checked.{Passed, read_request-Passed}
use scety.Listener.Forward.{forwarded_for, upstream_headers, final_buf, relay_upstream_response}
use scety.Listener.Process.{World, connected, Reply, as_usize, process_request_inner}
use scety.Listener.Process.Replies.{Wrote, forwarded, process_request_inner-upstream}
use scety.Tests.Router.{large_cache, services}

-- A request whose client claims another address, and its lines.
abbrev line : Text → Bytes
line text = text ++ crlf

abbrev received : Bytes
received =
    line (codes "GET / HTTP/1.1")
    ++ (line (codes "Host: example.com")
        ++ (line (codes "x-forwarded-for: 9.9.9.9") ++ (crlf ++ codes "body")))

abbrev added : Map Text
added = (forwarded_for, codes "1.2.3.4") ∷ []

head_end : find_head_end received ≡ some 59
unfolding find_head_end scety.Text.starts_with
head_end = refl

rewrite_head_lem_example :
    (head body : Bytes) × (rewrite_head received 59 (forwarded_for ∷ []) added
      ≡ head ++ (crlf ++ body))
    × (drop 61 received ≡ crlf ++ body)
    × (split_inclusive head
        ≡ keep (λ w. not (is_match (forwarded_for ∷ []) w)) (split_inclusive (take 61 received))
          ++ split_inclusive (header_lines added))
    × ((name : Text)
        → Any (λ n. n ≡ name) (forwarded_for ∷ [])
        → keep (names_header name) (split_inclusive head)
          ≡ keep (names_header name) (split_inclusive (header_lines added)))
rewrite_head_lem_example = rewrite_head_lem received 59 (forwarded_for ∷ []) added head_end

abbrev pub settings : ScetyConfig
settings = record {
  ip_limitation = some (pos 20);
  max_host_labels = some (pos 20);
  client_headers_timeout = none;
  client_body_timeout = none;
  client_full_timeout = none;
  client_use_full_timeout = false;
  client_header_buffer = some (pos 16_384);
  trusted_ca_bundle = none;
  global_upstream_headers = [];
  global_response_headers = [];
}

abbrev client_ip : Text
client_ip = codes "1.2.3.4:5678"

abbrev port : Text
port = codes "5678"

-- A parser that knows the one request.
abbrev parse : Bytes → Parsed
parse bytes = complete (record { name = codes "Host"; value = codes "example.com" } ∷ [])

abbrev client : Socket
client = record { arrivals = arrived received ∷ []; sent = []; writable = true }

abbrev router : SearchRouter large_cache
router = SearchRouter.new large_cache services

read_request-ends_example :
    (read_request large_cache parse settings 16_384 client router).0 ≢ out_of_fuel
read_request-ends_example = read_request-ends large_cache parse settings 16_384 client router

read_request-Passed_example :
    Passed large_cache parse settings 16_384 router
      (read_request large_cache parse settings 16_384 client router).0
read_request-Passed_example = read_request-Passed large_cache parse settings 16_384 client router

-- An upstream that takes every connection.
abbrev world : World
world = record {
  headers_late = none;
  connect = λ port. connected (arrived (codes "HTTP/1.1 204 No Content") ∷ []) none;
  body_late = false;
  copy_fails = false;
}

abbrev upstream_bytes : Bytes
upstream_bytes = final_buf received (upstream_headers settings none client_ip)

abbrev reply : Reply
reply = record {
  is_ok = true;
  client = record client { arrivals = [] };
  upstream = some (3000, upstream_bytes);
  relayed =
      some
        (relay_upstream_response true [] 16_384 (arrived (codes "HTTP/1.1 204 No Content") ∷ []));
}

client_served :
    process_request_inner large_cache parse settings world client_ip client router ≡ some reply
unfolding process_request_inner SearchRouter.new
client_served = refl

process_request_inner-upstream_example :
    (q : Request) × ((read_request large_cache parse settings
        (as_usize (pos 16_384))
        client
        router).0
      ≡ request q)
    × ((rest : Bytes) × (q.received ++ rest ≡ stream (arrived received ∷ [])))
    × Passed large_cache parse settings (as_usize (pos 16_384)) router (request q)
    × (q.target_port ≡ some 3000)
    × Wrote world 3000 (forwarded settings client_ip q) upstream_bytes
process_request_inner-upstream_example =
    process_request_inner-upstream large_cache parse settings world client_ip client router
      (pos 16_384) reply 3000 upstream_bytes refl client_served refl

-- A head with both a length and an encoding is answered twice.
abbrev ambiguous : Bytes → Parsed
ambiguous bytes = complete (
    record { name = codes "Content-Length"; value = codes "1" }
    ∷ record { name = codes "Transfer-Encoding"; value = codes "chunked" }
    ∷ [])

answered_twice :
    process_request_inner large_cache ambiguous settings world client_ip client router
    ≡ some (record {
      is_ok = true;
      client = record client { arrivals = []; sent = 400 ∷ 404 ∷ [] };
      upstream = none;
      relayed = none;
    })
unfolding process_request_inner SearchRouter.new
answered_twice = refl
