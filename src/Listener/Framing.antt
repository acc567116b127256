-- ===== src/Listener/Framing.antt =====
-- network/listeners.rs, `validate_framing_headers` and `is_websocket_upgrade`, on the headers that
-- `httparse` has found.
use scety.Prelude.{
  ℕ, Bool, true, false, not, ◌&&◌, Option, none, some, List, [], ◌∷◌, if◌then◌else◌, any, unwrap_or,
}
use scety.Text.{Text, codes, text_eq, split, trim, eq_ignore_ascii_case}
use scety.Text.Utf8.{Bytes, from_utf8}
pub mod Laws
pub mod Order

-- `httparse::Header`
pub record Header : Type 0 where
  pub name : Text
  pub value : Bytes

-- The three messages of `Err`.
pub data FramingError : Type 0 where
  different_content_lengths both_framings not_chunked : FramingError

pub data Framing : Type 0 where
  ok : Framing
  err : FramingError → Framing

abbrev pub content_length_name : Text
content_length_name = codes "Content-Length"

abbrev pub transfer_encoding_name : Text
transfer_encoding_name = codes "Transfer-Encoding"

-- `h.name.eq_ignore_ascii_case(..)`
abbrev pub is_named : Text → Header → Bool
is_named name h = eq_ignore_ascii_case h.name name

-- `str::from_utf8(value).unwrap_or("").trim()` is `chunked`.
unfoldable pub is_chunked : Bytes → Bool
unfolding from_utf8 trim eq_ignore_ascii_case
is_chunked value = eq_ignore_ascii_case (trim (unwrap_or (from_utf8 value) [])) (codes "chunked")

-- The tests after the loop.
unfoldable pub check_framing : Option Bytes → Option Bytes → Framing
unfolding is_chunked
check_framing none none = ok
check_framing (some _) none = ok
check_framing (some _) (some _) = err both_framings
check_framing none (some value) = if not (is_chunked value) then err not_chunked else ok

-- The first `Content-Length`, or the refusal of one that differs from it.
abbrev pub note_length : Option Bytes → Bytes → Option Bytes
note_length none value = some value
note_length (some prev) value = if text_eq prev value then some prev else none

-- The loop over the headers, with its two variables.
unfoldable pub scan_framing : Option Bytes → Option Bytes → List Header → Framing
unfolding check_framing text_eq eq_ignore_ascii_case
scan_framing content_length transfer_encoding [] = check_framing content_length transfer_encoding
scan_framing content_length transfer_encoding (h ∷ headers) =
    let rest = λ (length' encoding' : Option Bytes). scan_framing length' encoding' headers in
    if is_named content_length_name h
    then elim (note_length content_length h.value) [
      | none ↦ err different_content_lengths
      | some value ↦ rest (some value) transfer_encoding
    ]
    else if is_named transfer_encoding_name h
    then rest content_length (some h.value)
    else rest content_length transfer_encoding

unfoldable pub validate_framing_headers : List Header → Framing
unfolding scan_framing
validate_framing_headers headers = scan_framing none none headers

-- The closure `has_token`.
unfoldable pub has_token : Bytes → Text → Bool
unfolding from_utf8 split trim eq_ignore_ascii_case
has_token value token =
    any (λ t. eq_ignore_ascii_case (trim t) token) (split b',' (unwrap_or (from_utf8 value) []))

unfoldable pub is_websocket_upgrade : List Header → Bool
unfolding has_token
is_websocket_upgrade headers =
    any (λ h. is_named (codes "Connection") h && has_token h.value (codes "upgrade")) headers
    && any (λ h. is_named (codes "Upgrade") h && has_token h.value (codes "websocket")) headers
