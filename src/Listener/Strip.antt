-- ===== src/Listener/Strip.antt =====
-- network/listeners.rs, `strip_headers_by_name`, and what `process_request_inner` and
-- `relay_upstream_response` build with it: the head without the named headers, the new headers, and
-- the rest.
use scety.Prelude.{
  ℕ, ◌+◌, ◌-◌, Bool, true, false, ◌&&◌, Option, none, some, List, [], ◌∷◌, ◌++◌, ltb, ◌==◌,
  if◌then◌else◌, length, get_or, take, drop, any, map,
}
use scety.Text.{Text, codes, starts_with, ends_with, eq_ignore_ascii_case}
use scety.Text.Utf8.{Bytes, as_bytes}
pub mod Lines
pub mod Kept
pub mod Head
pub mod Named

abbrev pub line_feed : ℕ
line_feed = 10

abbrev pub crlf : Bytes
crlf = 13 ∷ 10 ∷ []

-- `head.split_inclusive(|&b| b == b'\n')`
abbrev pub cons_line : ℕ → List Bytes → List Bytes
cons_line x [] = (x ∷ []) ∷ []
cons_line x (w ∷ ws) = (x ∷ w) ∷ ws

unfoldable pub split_inclusive : Bytes → List Bytes
split_inclusive [] = []
split_inclusive (x ∷ s) =
    let ws = split_inclusive s in if x == line_feed then (x ∷ []) ∷ ws else cons_line x ws

-- `line.strip_suffix(b"\r\n").unwrap_or(line)`
unfoldable pub strip_crlf : Bytes → Bytes
unfolding ends_with
strip_crlf line = if ends_with crlf line then take (length line - 2) line else line

-- The line is a header of this name.
unfoldable pub names_header : Text → Bytes → Bool
unfolding strip_crlf as_bytes eq_ignore_ascii_case
names_header name line =
    let name_bytes = as_bytes name in
    let trimmed = strip_crlf line in
    ltb (length name_bytes) (length trimmed)
    && eq_ignore_ascii_case (take (length name_bytes) trimmed) name_bytes
    && get_or trimmed (length name_bytes) 0 == b':'

abbrev pub is_match : List Text → Bytes → Bool
is_match names line = any (λ name. names_header name line) names

-- The loop over the lines.
unfoldable pub strip_lines : List Text → List Bytes → Bytes
unfolding names_header
strip_lines names [] = []
strip_lines names (line ∷ lines) =
    let rest = strip_lines names lines in if is_match names line then rest else line ++ rest

unfoldable pub strip_headers_by_name : Bytes → List Text → Bytes
unfolding strip_lines split_inclusive
strip_headers_by_name head names = strip_lines names (split_inclusive head)

-- `buf.windows(4).position(|w| w == b"\r\n\r\n")`
unfoldable pub find_head_end : Bytes → Option ℕ
unfolding starts_with
find_head_end [] = none
find_head_end (x ∷ s) =
    if starts_with (13 ∷ 10 ∷ 13 ∷ 10 ∷ []) (x ∷ s)
    then some 0
    else elim (find_head_end s) [ none ↦ none | some pos ↦ some (pos + 1) ]

-- `format!("{key}: {value}\r\n").as_bytes()`
unfoldable pub header_line : Text × Text → Bytes
unfolding as_bytes
header_line (key, value) = as_bytes (key ++ (codes ": " ++ (value ++ crlf)))

unfoldable pub header_lines : List (Text × Text) → Bytes
unfolding header_line
header_lines [] = []
header_lines (h ∷ headers) = header_line h ++ header_lines headers

-- The head up to `pos + 2` without the headers of these names, the new headers, and the rest.
unfoldable pub rewrite_head : Bytes → ℕ → List Text → List (Text × Text) → Bytes
unfolding strip_headers_by_name header_lines
rewrite_head received pos names headers =
    strip_headers_by_name (take (pos + 2) received) names
    ++ (header_lines headers ++ drop (pos + 2) received)
