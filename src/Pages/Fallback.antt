-- ===== src/Pages/Fallback.antt =====
-- The page that is served while there is no configuration.
use scety.Prelude.{
  ℕ, ◌≡◌, ◌⊎◌, inl, inr, refl, ap, ◌∙◌, Bool, none, some, List, [], ◌∷◌, ◌++◌, map, length, All,
}
use scety.Text.{Text, codes}
use scety.Text.Words.{free}
use scety.Text.Replace.{replace}
use scety.Text.Utf8.{Bytes, as_bytes}
use scety.Listener.Socket.{Arrival, Read, got, read_error, read}
use scety.Response.{crlf, len_to_string}
use scety.Response.Reader.{read_message, declared_lengths, value}
use scety.Response.Printed.{
  print_lines, IsLine, header_text, IsField, encode, read_message-print_lines,
}
use scety.Response.RoundTrip.{server-Free}
use scety.Response.Length.{IsUsize, value-len_to_string, len_to_string-Free}
use scety.Pages.{engine_display, fallback_response, fallback_task}
use scety.Pages.Framed.{Framed}

abbrev pub fallback_page : Text → Bool → Text
fallback_page html expose = replace (codes "{{ENGINE}}") (engine_display expose) html

abbrev headers : Text → Bool → List (Text × Text)
headers html expose =
    (codes "Content-Type", codes "text/html; charset=utf-8")
    ∷ (codes "Content-Length", len_to_string (fallback_page html expose))
    ∷ (codes "Connection", codes "close")
    ∷ (codes "Server", engine_display expose)
    ∷ []

fallback_response-lines :
    (html : Text) (expose : Bool)
    → fallback_response html expose
      ≡ print_lines
          (codes "HTTP/1.1 200 OK" ∷ map header_text (headers html expose))
          (crlf ++ fallback_page html expose)
unfolding fallback_response
fallback_response-lines html expose = refl

headers-IsField : (html : Text) (expose : Bool) → All IsField (headers html expose)
unfolding free
headers-IsField html expose = (
  (refl, refl, refl),
  (
    (refl, refl, len_to_string-Free (fallback_page html expose)),
    ((refl, refl, refl), ((refl, refl, server-Free expose), tt)),
  ),
)

start-IsLine : IsLine (codes "HTTP/1.1 200 OK")
unfolding free
start-IsLine = (λ e. absurd (cc), refl)

headers-declared :
    (html : Text) (expose : Bool)
    → declared_lengths (map encode (headers html expose))
      ≡ value 0 (as_bytes (len_to_string (fallback_page html expose))) ∷ []
unfolding declared_lengths scety.Text.to_ascii_lowercase as_bytes
headers-declared html expose = refl

fallback_response-Framed :
    (html : Text) (expose : Bool)
    → IsUsize (length (as_bytes (fallback_page html expose)))
    → Framed
        (as_bytes (codes "HTTP/1.1 200 OK"))
        (as_bytes (fallback_page html expose))
        (as_bytes (fallback_response html expose))
fallback_response-Framed html expose h = record {
  fields = map encode (headers html expose);
  reads =
      ap (λ t. read_message (as_bytes t)) (fallback_response-lines html expose)
      ∙ read_message-print_lines (codes "HTTP/1.1 200 OK") (headers html expose)
          (fallback_page html expose) start-IsLine (headers-IsField html expose);
  declared =
      headers-declared html expose
      ∙ ap (λ n. n ∷ []) (value-len_to_string (fallback_page html expose) h);
}

Read-cases :
    (r : Read)
    → (r ≡ read_error) ⊎ ((r ≡ got []) ⊎ ((x : ℕ) × (rest : Bytes) × (r ≡ got (x ∷ rest))))
Read-cases read_error = inl refl
Read-cases (got []) = inr (inl refl)
Read-cases (got (x ∷ rest)) = inr (inr (x, rest, refl))

-- Whatever the fallback server's client sends, for a page shorter than 2^64 bytes: either the first
-- read fails or gives no byte, and the server writes nothing; or it gives some bytes, and the server
-- writes one response with the status line of 200, the page as its body, and the page's length in
-- bytes as its only `Content-Length`.
pub fallback_task-Framed :
    (html : Text) (expose : Bool) (arrivals : List Arrival)
    → IsUsize (length (as_bytes (fallback_page html expose)))
    → ((fallback_task html expose arrivals ≡ none)
        × (((read 1024 arrivals).0 ≡ read_error) ⊎ ((read 1024 arrivals).0 ≡ got [])))
      ⊎ ((sent : Bytes) × (fallback_task html expose arrivals ≡ some sent)
          × ((x : ℕ) × (rest : Bytes) × (read 1024 arrivals).0 ≡ got (x ∷ rest))
          × Framed (as_bytes (codes "HTTP/1.1 200 OK")) (as_bytes (fallback_page html expose)) sent)
unfolding fallback_task
fallback_task-Framed html expose arrivals h = elim (Read-cases (read 1024 arrivals).0) [
  | inl failed ↦ inl (rw (fallback_task, failed) refl, inl failed)
  | inr (inl ended) ↦ inl (rw (fallback_task, ended) refl, inr ended)
  | inr (inr (x, rest, some_bytes)) ↦ inr (
    as_bytes (fallback_response html expose),
    rw (fallback_task, some_bytes) refl,
    (x, rest, some_bytes),
    fallback_response-Framed html expose h,
  )
]
