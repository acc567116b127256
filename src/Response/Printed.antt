-- ===== src/Response/Printed.antt =====
-- Printed texts as bytes, and as lines.
use scety.Prelude.{
  ℕ, zero, suc, ◌/◌, ◌≡◌, refl, ap, sym, ◌∙◌, ◌≢◌, true, false, some, List, [], ◌∷◌, ◌++◌, map,
  arith, ltb, All, append_assoc, if_cases,
}
use scety.Text.{Text, codes, split_once}
use scety.Text.Words.{free, Free}
use scety.Text.Decimal.{decimal_digits}
use scety.Text.Utf8.{Bytes, as_bytes}
use scety.Response.{crlf, print_header, print_headers}
use scety.Response.Reader.{read_lines, read_fields, read_message, of_lines, with_fields}

pub as_bytes-append : (s t : Text) → as_bytes (s ++ t) ≡ as_bytes s ++ as_bytes t
unfolding as_bytes
as_bytes-append [] t = refl
as_bytes-append (c ∷ s) t =
    rw (as_bytes-append s t) (sym (append_assoc _ (as_bytes s) (as_bytes t)))

pub Free-append : (c : ℕ) (s t : Text) → Free c s → Free c t → Free c (s ++ t)
unfolding free
Free-append c [] t f g = g
Free-append c (x ∷ s) t f g = ground (arith, Free-append c s t)

-- A character of ASCII is a byte of a text only where it is a character of it.
as_bytes-Free : (c : ℕ) (s : Text) → ltb c 128 ≡ true → Free c s → Free c (as_bytes s)
unfolding as_bytes free
as_bytes-Free c [] a f = refl
as_bytes-Free c (x ∷ s) a f =
    let rest = as_bytes-Free c s a (ground (arith, f)) in ground (arith, rest)

pub decimal_digits-Free : (c fuel n : ℕ) → ltb c b'0' ≡ true → Free c (decimal_digits fuel n)
unfolding decimal_digits free
decimal_digits-Free c zero n h = refl
decimal_digits-Free c (suc fuel) n h =
    if_cases (Free c) (ltb n 10) _ _ (λ _. ground arith)
      (λ _.
        Free-append c (decimal_digits fuel (n / 10)) _ (decimal_digits-Free c fuel (n / 10) h)
          (ground arith))

-- Reading one line.
read_lines-middle :
    (l s : Bytes) (ls : List Bytes) (rest : Bytes)
    → Free 13 l
    → read_lines true s ≡ some (ls, rest)
    → read_lines false (l ++ 13 ∷ 10 ∷ s) ≡ some (l ∷ ls, rest)
unfolding read_lines free
read_lines-middle [] s ls rest f e = rw e refl
read_lines-middle (x ∷ []) s ls rest f e = ground (arith, e)
read_lines-middle (x ∷ y ∷ l) s ls rest f e =
    let next = read_lines-middle (y ∷ l) s ls rest (ground (arith, f)) e in ground (arith, next)

read_lines-line :
    (l s : Bytes) (ls : List Bytes) (rest : Bytes)
    → l ≢ []
    → Free 13 l
    → read_lines true s ≡ some (ls, rest)
    → read_lines true (l ++ 13 ∷ 10 ∷ s) ≡ some (l ∷ ls, rest)
unfolding read_lines free
read_lines-line [] s ls rest full f e = absurd (full refl)
read_lines-line (x ∷ []) s ls rest full f e = ground (arith, e)
read_lines-line (x ∷ y ∷ l) s ls rest full f e =
    let next = read_lines-middle (y ∷ l) s ls rest (ground (arith, f)) e in ground (arith, next)

-- Lines with their ends, and what follows.
abbrev pub print_lines : List Text → Text → Text
print_lines [] tail = tail
print_lines (l ∷ ls) tail = l ++ (crlf ++ print_lines ls tail)

-- A line that is not empty and holds no carriage return.
abbrev pub IsLine : Text → Type 0
IsLine l = (l ≢ []) × Free 13 l

as_bytes-ne-nil : (l : Text) → l ≢ [] → as_bytes l ≢ []
unfolding as_bytes
as_bytes-ne-nil [] h e = h refl
as_bytes-ne-nil (c ∷ l) h e = ground (arith, e)

read_lines-print_lines :
    (ls : List Text) (body : Text)
    → All IsLine ls
    → read_lines true (as_bytes (print_lines ls (crlf ++ body)))
      ≡ some (map as_bytes ls, as_bytes body)
unfolding as_bytes read_lines
read_lines-print_lines [] body h = refl
read_lines-print_lines (l ∷ ls) body ((full, f), h) =
    let tail : Text = print_lines ls (crlf ++ body) in
    ap (read_lines true) (as_bytes-append l (crlf ++ tail))
    ∙ read_lines-line (as_bytes l) (as_bytes tail) (map as_bytes ls) (as_bytes body)
        (as_bytes-ne-nil l full) (as_bytes-Free 13 l refl f) (read_lines-print_lines ls body h)

-- A header as a line.
abbrev pub header_text : Text × Text → Text
header_text h = h.0 ++ (codes ": " ++ h.1)

print_header-line :
    (h : Text × Text) (tail : Text) → print_header h ++ tail ≡ header_text h ++ (crlf ++ tail)
print_header-line h tail =
    append_assoc h.0 (codes ": " ++ (h.1 ++ crlf)) tail
    ∙ ap (λ k. h.0 ++ (b':' ∷ b' ' ∷ k)) (append_assoc h.1 crlf tail)
    ∙ sym (append_assoc h.0 (codes ": " ++ h.1) (crlf ++ tail))

pub print_header-next :
    (h : Text × Text) {s t : Text} → s ≡ t → print_header h ++ s ≡ header_text h ++ (crlf ++ t)
print_header-next h {s} e = print_header-line h s ∙ ap (λ k. header_text h ++ (crlf ++ k)) e

pub print_headers-lines :
    (hs : List (Text × Text)) (tail : Text)
    → print_headers hs ++ tail ≡ print_lines (map header_text hs) tail
unfolding print_headers
print_headers-lines [] tail = refl
print_headers-lines (h ∷ hs) tail =
    append_assoc (print_header h) (print_headers hs) tail
    ∙ print_header-next h (print_headers-lines hs tail)

-- A field's name has no colon, and neither the name nor the value has a carriage return.
abbrev pub IsField : Text × Text → Type 0
IsField h = Free b':' h.0 × Free 13 h.0 × Free 13 h.1

append-cons-ne-nil : (s : Text) (x : ℕ) (t : Text) → s ++ x ∷ t ≢ []
append-cons-ne-nil [] x t e = absurd (cc)
append-cons-ne-nil (y ∷ s) x t e = absurd (cc)

IsField-IsLine : (h : Text × Text) → IsField h → IsLine (header_text h)
unfolding free
IsField-IsLine h (colon, name, val) = (
  append-cons-ne-nil h.0 b':' (b' ' ∷ h.1),
  Free-append 13 h.0 (codes ": " ++ h.1) name (ground (arith, val)),
)

split_once-Free : (c : ℕ) (s t : Text) → Free c s → split_once c (s ++ c ∷ t) ≡ some (s, t)
unfolding split_once free
split_once-Free c [] t f = ground arith
split_once-Free c (x ∷ s) t f = ground (arith, split_once-Free c s t (ground (arith, f)))

abbrev pub encode : Text × Text → Bytes × Bytes
encode h = (as_bytes h.0, as_bytes h.1)

read_fields-print :
    (hs : List (Text × Text))
    → All IsField hs
    → read_fields (map as_bytes (map header_text hs)) ≡ some (map encode hs)
unfolding read_fields as_bytes
read_fields-print [] a = refl
read_fields-print (h ∷ hs) ((colon, _, _), a) =
    rw
      (
        as_bytes-append h.0 (codes ": " ++ h.1),
        split_once-Free b':' (as_bytes h.0) _ (as_bytes-Free b':' h.0 refl colon),
        read_fields-print hs a,
      )
      refl

All-IsLine : (hs : List (Text × Text)) → All IsField hs → All IsLine (map header_text hs)
All-IsLine [] a = tt
All-IsLine (h ∷ hs) a = (IsField-IsLine h a.0, All-IsLine hs a.1)

-- A line, fields and a body are read back from their print.
pub read_message-print_lines :
    (line : Text) (hs : List (Text × Text)) (body : Text)
    → IsLine line
    → All IsField hs
    → read_message (as_bytes (print_lines (line ∷ map header_text hs) (crlf ++ body)))
      ≡ some (record { start = as_bytes line; fields = map encode hs; body = as_bytes body })
unfolding read_message
read_message-print_lines line hs body l a =
    ap of_lines (read_lines-print_lines (line ∷ map header_text hs) body (l, All-IsLine hs a))
    ∙ ap (with_fields (as_bytes line) (as_bytes body)) (read_fields-print hs a)
