-- ===== src/Response/RoundTrip.antt =====
-- What the proxy prints, a reader of HTTP reads back.
use scety.Prelude.{
  ℕ, ◌≡◌, refl, ap, ◌∙◌, Bool, true, false, some, List, [], ◌∷◌, ◌++◌, map, unwrap_or, All,
}
use scety.Text.{Text, codes, eq_ignore_ascii_case}
use scety.Text.Words.{Free}
use scety.Text.Decimal.{to_string}
use scety.Text.Utf8.{as_bytes}
use scety.Response.{HttpResponse, crlf, server, status_line, to_http_string}
use scety.Response.Reader.{read_message}
use scety.Response.Printed.{
  Free-append, decimal_digits-Free, print_lines, IsLine, header_text, print_header-next,
  print_headers-lines, IsField, encode, read_message-print_lines,
}

pub server-Free : (expose : Bool) → Free 13 (server expose)
server-Free true = unfold scety.Text.Words.free in refl
server-Free false = unfold scety.Text.Words.free in refl

module _ (get_status_message : ℕ → Text) (date : Text) where
  -- All the headers of the printed response.
  abbrev pub all_headers : HttpResponse → List (Text × Text)
  all_headers r =
      (codes "Server", server r.expose_version)
      ∷ (codes "Connection", r.connection)
      ∷ (codes "Date", date)
      ∷ r.headers

  to_http_string-lines :
      (r : HttpResponse)
      → to_http_string get_status_message date r
        ≡ print_lines
            (status_line get_status_message date r.code ∷ map header_text (all_headers r))
            (crlf ++ unwrap_or r.body [])
  unfolding to_http_string
  to_http_string-lines r =
      ap (λ k. status_line get_status_message date r.code ++ (crlf ++ k))
        (print_header-next (codes "Server", server r.expose_version)
          (print_header-next (codes "Connection", r.connection)
            (print_header-next (codes "Date", date)
              (print_headers-lines r.headers (crlf ++ unwrap_or r.body [])))))

  -- The texts that go into the head hold no carriage return, and the names no colon.
  pub record IsPrintable (r : HttpResponse) : Type 0 where
    pub message : Free 13 (get_status_message r.code)
    pub dated : Free 13 date
    pub connection : Free 13 r.connection
    pub headers : All IsField r.headers

  all_headers-IsField : (r : HttpResponse) → IsPrintable r → All IsField (all_headers r)
  unfolding scety.Text.Words.free
  all_headers-IsField r p = (
    (refl, refl, server-Free r.expose_version),
    ((refl, refl, p.connection), ((refl, refl, p.dated), p.headers)),
  )

  status_line-IsLine :
      (r : HttpResponse) → IsPrintable r → IsLine (status_line get_status_message date r.code)
  unfolding scety.Text.Words.free to_string
  status_line-IsLine r p = (
    λ e. absurd (cc),
    Free-append 13 (to_string r.code) (b' ' ∷ get_status_message r.code)
        (decimal_digits-Free 13 5 r.code refl) p.message,
  )

  -- If the status message, the date and the value of `Connection` hold no carriage return, and no
  -- header has one or a colon in its name, then a reader of HTTP reads the printed response, as
  -- bytes, back as its status line, the headers `Server`, `Connection` and `Date`, the response's
  -- own headers in their order, and exactly its body.
  pub read_message-to_http_string :
      (r : HttpResponse)
      → IsPrintable r
      → read_message (as_bytes (to_http_string get_status_message date r))
        ≡ some (record {
          start = as_bytes (status_line get_status_message date r.code);
          fields = map encode (all_headers r);
          body = as_bytes (unwrap_or r.body []);
        })
  read_message-to_http_string r p =
      ap (λ t. read_message (as_bytes t)) (to_http_string-lines r)
      ∙ read_message-print_lines (status_line get_status_message date r.code) (all_headers r)
          (unwrap_or r.body []) (status_line-IsLine r p) (all_headers-IsField r p)
