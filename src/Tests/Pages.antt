-- ===== src/Tests/Pages.antt =====
-- Responses of the proxy itself.
use scety.Prelude.{ℕ, ◌≡◌, refl, ◌⊎◌, true, false, none, some, [], ◌∷◌, length, map, arith}
use scety.Text.{Text, codes}
use scety.Text.Words.{free}
use scety.Text.Utf8.{Bytes, as_bytes}
use scety.Map.{Map}
use scety.Listener.Socket.{arrived, read, got, read_error}
use scety.Response.{HttpResponse, status_line, to_http_string}
use scety.Response.Reader.{read_message}
use scety.Response.Printed.{encode}
use scety.Response.RoundTrip.{all_headers, IsPrintable, read_message-to_http_string}
use scety.Response.Length.{IsUsize}
use scety.Pages.{get_status_message, generate_html, error_page, fallback_task}
use scety.Pages.Framed.{Framed, IsServable, error_page-Framed}
use scety.Pages.Fallback.{fallback_page, fallback_task-Framed}
use scety.Tests.Messages.{settings}

abbrev message : ℕ → Text
message code = codes "Not Found"

abbrev date : Text
date = codes "Thu, 01 Jan 2026 00:00:00 GMT"

abbrev response : HttpResponse
response = record {
  code = 404;
  connection = codes "close";
  expose_version = true;
  headers = (codes "X-Served-By", codes "scety") ∷ [];
  body = some (codes "gone");
}

response-IsPrintable : IsPrintable message date response
unfolding free
response-IsPrintable = record {
  message = refl;
  dated = refl;
  connection = refl;
  headers = ((refl, refl, refl), tt);
}

read_message-to_http_string_example :
    read_message (as_bytes (to_http_string message date response))
    ≡ some (record {
      start = as_bytes (status_line message date 404);
      fields = map encode (all_headers message date response);
      body = as_bytes (codes "gone");
    })
read_message-to_http_string_example =
    read_message-to_http_string message date response response-IsPrintable

abbrev statuses : Map Text
statuses = (codes "404", codes "Not Found") ∷ []

abbrev template : Text
template = codes "{{CODE}} {{MESSAGE}} by {{ENGINE}}"

settings-IsServable : IsServable statuses date settings 404
unfolding get_status_message free
settings-IsServable = record { message = refl; dated = refl; headers = tt; others = tt }

page_size :
    IsUsize (length (as_bytes (generate_html template 404 (get_status_message statuses 404) false)))
unfolding generate_html get_status_message as_bytes
page_size = omega arith

error_page-Framed_example :
    Framed
      (as_bytes (status_line (get_status_message statuses) date 404))
      (as_bytes (generate_html template 404 (get_status_message statuses 404) false))
      (error_page statuses date settings template 404 false)
error_page-Framed_example =
    error_page-Framed statuses date settings template 404 false settings-IsServable page_size

-- The page itself.
template_filled :
    generate_html template 404 (codes "Not Found") false ≡ codes "404 Not Found by scety"
unfolding generate_html
template_filled = refl

fallback_size : IsUsize (length (as_bytes (fallback_page template true)))
unfolding as_bytes scety.Text.Replace.replace
fallback_size = omega arith

fallback_task-Framed_example :
    ((fallback_task template true (arrived (71 ∷ []) ∷ []) ≡ none)
      × (((read 1024 (arrived (71 ∷ []) ∷ [])).0 ≡ read_error)
          ⊎ ((read 1024 (arrived (71 ∷ []) ∷ [])).0 ≡ got [])))
    ⊎ ((sent : Bytes) × (fallback_task template true (arrived (71 ∷ []) ∷ []) ≡ some sent)
        × ((x : ℕ) × (rest : Bytes) × (read 1024 (arrived (71 ∷ []) ∷ [])).0 ≡ got (x ∷ rest))
        × Framed (as_bytes (codes "HTTP/1.1 200 OK")) (as_bytes (fallback_page template true)) sent)
fallback_task-Framed_example =
    fallback_task-Framed template true (arrived (71 ∷ []) ∷ []) fallback_size
