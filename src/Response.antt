-- ===== src/Response.antt =====
-- core/response.rs: a response of the proxy itself, and its text. The date is a parameter of the
-- printer; the name and the version of the engine are the package's.
use scety.Prelude.{
  ℕ, Bool, Option, none, some, List, [], ◌∷◌, ◌++◌, if◌then◌else◌, length, unwrap_or,
}
use scety.Text.{Text, codes}
use scety.Text.Decimal.{to_string, decimal_digits}
use scety.Text.Utf8.{as_bytes}
pub mod Reader
pub mod Printed
pub mod RoundTrip
pub mod Length

abbrev pub engine_name : Text
engine_name = codes "scety"

abbrev pub engine_version : Text
engine_version = codes "0.1.1"

abbrev pub crlf : Text
crlf = 13 ∷ 10 ∷ []

pub record HttpResponse : Type 0 where
  pub code : ℕ
  pub connection : Text
  pub expose_version : Bool
  pub headers : List (Text × Text)
  pub body : Option Text

-- `HttpResponse::new`
unfoldable pub new : ℕ → Text → Bool → HttpResponse
new code connection expose_version = record {
  code = code;
  connection = connection;
  expose_version = expose_version;
  headers = [];
  body = none;
}

-- `s.len().to_string()`: the bytes of the text; a `usize` has at most twenty digits.
unfoldable pub len_to_string : Text → Text
unfolding decimal_digits as_bytes
len_to_string s = decimal_digits 20 (length (as_bytes s))

unfoldable pub with_content : Text → Text → HttpResponse → HttpResponse
unfolding len_to_string
with_content content_type body r = record r {
  headers =
      r.headers
      ++ (codes "Content-Type", content_type) ∷ (codes "Content-Length", len_to_string body) ∷ [];
  body = some body;
}

unfoldable pub with_headers : List (Text × Text) → HttpResponse → HttpResponse
with_headers extra r = record r { headers = r.headers ++ extra }

-- `write!(.., "{}: {}\r\n", key, value)`
abbrev pub print_header : Text × Text → Text
print_header h = h.0 ++ (codes ": " ++ (h.1 ++ crlf))

unfoldable pub print_headers : List (Text × Text) → Text
print_headers [] = []
print_headers (h ∷ headers) = print_header h ++ print_headers headers

-- The value of `Server`.
abbrev pub server : Bool → Text
server expose_version = if expose_version then engine_name ++ b'/' ∷ engine_version else engine_name

module _ (get_status_message : ℕ → Text) (date : Text) where
  abbrev pub status_line : ℕ → Text
  status_line code = codes "HTTP/1.1 " ++ (to_string code ++ b' ' ∷ get_status_message code)

  -- `to_http_string`
  unfoldable pub to_http_string : HttpResponse → Text
  unfolding print_headers to_string
  to_http_string r =
      status_line r.code
      ++ (crlf
          ++ (print_header (codes "Server", server r.expose_version)
              ++ (print_header (codes "Connection", r.connection)
                  ++ (print_header (codes "Date", date)
                      ++ (print_headers r.headers ++ (crlf ++ unwrap_or r.body []))))))
