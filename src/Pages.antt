-- ===== src/Pages.antt =====
-- http/generate_http_response.rs, http/error_pages.rs and network/fallback_server.rs: what the proxy
-- answers by itself. The table of status messages is generated by the build and is a parameter, and
-- so are the templates of the pages, which are assets, and the date.
use scety.Prelude.{
  ℕ, ◌+◌, ◌≡◌, Bool, true, false, Option, none, some, List, [], ◌∷◌, ◌++◌, ◌==◌, if◌then◌else◌,
  unwrap_or, or_else,
}
use scety.Text.{Text, codes}
use scety.Text.Decimal.{to_string, parse_u16}
use scety.Text.Replace.{replace}
use scety.Text.Utf8.{Bytes, as_bytes}
use scety.Map.{Map}
use scety.Config.Global.{ScetyConfig}
use scety.Listener.Socket.{Arrival, Read, got, read_error, read}
use scety.Response.{
  engine_name, engine_version, crlf, server, len_to_string, new, with_headers, with_content,
  to_http_string,
}
pub mod Framed
pub mod Fallback

-- `STATUS_MAP`: the entries whose key is a number.
unfoldable pub status_map : Map Text → List (ℕ × Text)
unfolding parse_u16
status_map [] = []
status_map ((k, v) ∷ statuses) =
    let rest = status_map statuses in
    elim (parse_u16 k) [ none ↦ rest | some num ↦ (num, v) ∷ rest ]

-- `map.get(&code)`, where a later entry took the place of an earlier one.
unfoldable pub find_status : ℕ → List (ℕ × Text) → Option Text
find_status code [] = none
find_status code ((num, v) ∷ map) =
    or_else (find_status code map) (if num == code then some v else none)

unfoldable pub get_status_message : Map Text → ℕ → Text
unfolding find_status status_map
get_status_message statuses code =
    unwrap_or (find_status code (status_map statuses)) (codes "Something went wrong.")

-- `concat!(env!("CARGO_PKG_NAME"), "/", env!("CARGO_PKG_VERSION"))`
abbrev pub engine_display : Bool → Text
engine_display expose_version = server expose_version

-- `generate_html`
unfoldable pub generate_html : Text → ℕ → Text → Bool → Text
unfolding replace to_string
generate_html error_template code message expose_version =
    replace (codes "{{ENGINE}}") (engine_display expose_version) (
      replace (codes "{{MESSAGE}}") message
        (replace (codes "{{CODE}}") (to_string code) error_template))

module _ (statuses : Map Text) (date : Text) (cfg : ScetyConfig) where
  -- `generate_text_response`; the type and the content are given when `with_content` is.
  unfoldable pub generate_text_response : ℕ → Text → Bool → Option Text → Option Text → Bool → Text
  unfolding new with_headers with_content to_http_string get_status_message
  generate_text_response code connection with_body content_type content expose_version =
      let response =
        with_headers cfg.global_response_headers (new code connection expose_version) in
      to_http_string (get_status_message statuses) date (
        if with_body
        then with_content (unwrap_or content_type (codes "text/plain; charset=utf-8"))
            (unwrap_or content []) response
        else response)

  -- What `send` writes to the stream.
  unfoldable pub error_page : Text → ℕ → Bool → Bytes
  unfolding generate_text_response generate_html get_status_message as_bytes
  error_page error_template code expose_version =
      let html_content =
        generate_html error_template code (get_status_message statuses code) expose_version in
      as_bytes (
        generate_text_response code (codes "close") true (some (codes "text/html; charset=utf-8"))
          (some html_content) expose_version)

-- The response of `start_fallback_server`.
unfoldable pub fallback_response : Text → Bool → Text
unfolding replace len_to_string
fallback_response no_config_html expose_version =
    let html_body = replace (codes "{{ENGINE}}") (engine_display expose_version) no_config_html in
    codes "HTTP/1.1 200 OK"
    ++ (crlf
        ++ (codes "Content-Type: text/html; charset=utf-8"
            ++ (crlf
                ++ (codes "Content-Length: "
                    ++ (len_to_string html_body
                        ++ (crlf
                            ++ (codes "Connection: close"
                                ++ (crlf
                                    ++ (codes "Server: "
                                        ++ (engine_display expose_version
                                            ++ (crlf ++ (crlf ++ html_body))))))))))))

-- The task of one connection: what it writes, after one read.
unfoldable pub fallback_task : Text → Bool → List Arrival → Option Bytes
unfolding read fallback_response as_bytes
fallback_task no_config_html expose_version arrivals = elim (read 1024 arrivals).0 [
  | read_error ↦ none
  | got bytes ↦ elim bytes [
    | [] ↦ none
    | x ∷ rest ↦ some (as_bytes (fallback_response no_config_html expose_version))
  ]
]
