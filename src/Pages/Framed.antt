-- ===== src/Pages/Framed.antt =====
-- The proxy's own responses are framed as HTTP asks: what the head declares is what follows it.
use scety.Prelude.{ℕ, ◌≡◌, refl, Bool, some, List, [], ◌∷◌, map, length, All, All-append}
use scety.Text.{Text, codes}
use scety.Text.Words.{free, Free}
use scety.Text.Utf8.{Bytes, as_bytes}
use scety.Map.{Map}
use scety.Config.Global.{ScetyConfig}
use scety.Response.{
  HttpResponse, new, with_headers, with_content, status_line, to_http_string, len_to_string,
}
use scety.Response.Reader.{read_message, declared_lengths}
use scety.Response.Printed.{IsField, encode}
use scety.Response.RoundTrip.{all_headers, IsPrintable, read_message-to_http_string}
use scety.Response.Length.{len_to_string-Free, IsOther, IsUsize, with_content-declared_lengths}
use scety.Pages.{get_status_message, generate_html, generate_text_response, error_page}

-- The bytes are one HTTP response with this start line and this body, and the body's length is the
-- only one that it declares.
pub record Framed (start body sent : Bytes) : Type 0 where
  pub fields : List (Bytes × Bytes)
  pub reads : read_message sent ≡ some (record { start = start; fields = fields; body = body })
  pub declared : declared_lengths fields ≡ length body ∷ []

content-IsField :
    (content_type body : Text)
    → Free 13 content_type
    → All IsField
        ((codes "Content-Type", content_type) ∷ (codes "Content-Length", len_to_string body) ∷ [])
unfolding free
content-IsField content_type body t = ((refl, refl, t), ((refl, refl, len_to_string-Free body), tt))

with_content-IsPrintable :
    (get_message : ℕ → Text) (date content_type body : Text) (r : HttpResponse)
    → Free 13 content_type
    → IsPrintable get_message date r
    → IsPrintable get_message date (with_content content_type body r)
unfolding with_content
with_content-IsPrintable get_message date content_type body r t p = record {
  message = p.message;
  dated = p.dated;
  connection = p.connection;
  headers = All-append _ r.headers _ p.headers (content-IsField content_type body t);
}

module _ (statuses : Map Text) (date : Text) (cfg : ScetyConfig) where
  -- The configured headers can be printed, and none is a `Content-Length`.
  pub record IsServable (code : ℕ) : Type 0 where
    pub message : Free 13 (get_status_message statuses code)
    pub dated : Free 13 date
    pub headers : All IsField cfg.global_response_headers
    pub others : All IsOther cfg.global_response_headers

  abbrev response : ℕ → Text → Bool → HttpResponse
  response code connection expose =
      with_headers cfg.global_response_headers (new code connection expose)

  response-IsPrintable :
      (code : ℕ) (connection : Text) (expose : Bool)
      → IsServable code
      → Free 13 connection
      → IsPrintable (get_status_message statuses) date (response code connection expose)
  unfolding with_headers new
  response-IsPrintable code connection expose s c = record {
    message = s.message;
    dated = s.dated;
    connection = c;
    headers = s.headers;
  }

  with_content-Framed :
      (code : ℕ) (connection content_type body : Text) (expose : Bool)
      → IsServable code
      → Free 13 connection
      → Free 13 content_type
      → IsUsize (length (as_bytes body))
      → Framed (as_bytes (status_line (get_status_message statuses) date code)) (as_bytes body) (
          as_bytes (
            to_http_string
              (get_status_message statuses)
              date
              (with_content content_type body (response code connection expose))))
  unfolding with_headers new with_content
  with_content-Framed code connection content_type body expose s c t h =
      let r : HttpResponse = response code connection expose in
      record {
        fields =
            map encode
              (all_headers (get_status_message statuses) date (with_content content_type body r));
        reads =
            read_message-to_http_string (get_status_message statuses) date
              (with_content content_type body r)
              (with_content-IsPrintable (get_status_message statuses) date content_type body r t
                (response-IsPrintable code connection expose s c));
        declared = with_content-declared_lengths date content_type body r s.others h;
      }

  -- If the status message and the date hold no carriage return, the configured response headers have
  -- none either, no colon in a name and no `Content-Length` among them, and the page is shorter than
  -- 2^64 bytes, then what `send` writes is one response with the status line of its code, the page
  -- as its body, and the page's length in bytes as its only `Content-Length`.
  pub error_page-Framed :
      (template : Text) (code : ℕ) (expose : Bool)
      → IsServable code
      → IsUsize (
          length (as_bytes (generate_html template code (get_status_message statuses code) expose)))
      → Framed
          (as_bytes (status_line (get_status_message statuses) date code))
          (as_bytes (generate_html template code (get_status_message statuses code) expose))
          (error_page statuses date cfg template code expose)
  unfolding error_page generate_text_response
  error_page-Framed template code expose s h =
      with_content-Framed code (codes "close") (codes "text/html; charset=utf-8")
        (generate_html template code (get_status_message statuses code) expose) expose s
        (unfold free in refl) (unfold free in refl) h
