-- ===== src/Listener/Strip/Head.antt =====
-- The rewritten head of a message: where it ends, and which of its lines name a header.
use scety.Prelude.{
  ℕ, ◌+◌, ◌≡◌, ◌≢◌, none, ap, sym, ◌∙◌, subst, true, not, some, List, [], ◌∷◌, ◌++◌, arith, length,
  take, drop, Any, Bool-cases, Option-cases, append_assoc, length-append, take-append, drop-append,
  inl, inr,
}
use scety.Text.{Text, starts_with}
use scety.Text.Utf8.{Bytes}
use scety.Listener.Strip.{
  line_feed, crlf, split_inclusive, is_match, names_header, strip_headers_by_name, find_head_end,
  header_lines, rewrite_head,
}
use scety.Listener.Strip.Kept.{
  keep, keep-append, keep-listed, split_inclusive-strip_headers_by_name,
}

starts_with-head_end :
    (s : Bytes)
    → starts_with (13 ∷ 10 ∷ 13 ∷ 10 ∷ []) s ≡ true
    → (b : Bytes) × (s ≡ 13 ∷ 10 ∷ 13 ∷ 10 ∷ b)
unfolding starts_with
starts_with-head_end (a ∷ b ∷ c ∷ d ∷ s) h = (s, ground arith)
starts_with-head_end s h = absurd (ground arith)

-- The blank line stands at the place that is found.
pub find_head_end-split :
    (s : Bytes) (pos : ℕ)
    → find_head_end s ≡ some pos
    → (a b : Bytes) × (s ≡ a ++ 13 ∷ 10 ∷ 13 ∷ 10 ∷ b) × (length a ≡ pos)
unfolding find_head_end
find_head_end-split [] pos h = absurd (cc)
find_head_end-split (x ∷ s) pos h =
    elim (Bool-cases (starts_with (13 ∷ 10 ∷ 13 ∷ 10 ∷ []) (x ∷ s))) [
      | inl e ↦ let (b, q) = starts_with-head_end (x ∷ s) e in ([], b, q, ground arith)
      | inr e ↦ elim (Option-cases (find_head_end s)) [
        | inl n ↦ absurd (ground arith)
        | inr (p, q) ↦
            let (a, b, whole, size) = find_head_end-split s p q in
            (x ∷ a, b, ap (◌∷◌ x) whole, ground arith)
      ]
    ]

-- The part before the blank line ends with a line feed, and the rest begins with an empty line.
pub head-cut :
    (s : Bytes) (pos : ℕ)
    → find_head_end s ≡ some pos
    → (a b : Bytes) × (take (pos + 2) s ≡ (a ++ 13 ∷ []) ++ line_feed ∷ [])
      × (drop (pos + 2) s ≡ crlf ++ b)
head-cut s pos h =
    let (a, b, whole, size) = find_head_end-split s pos h in
    let n : pos + 2 ≡ length ((a ++ 13 ∷ []) ++ line_feed ∷ []) =
      omega
        (arith, length-append {0} (a ++ 13 ∷ []) (line_feed ∷ []), length-append {0} a (13 ∷ [])) in
    let t : s ≡ ((a ++ 13 ∷ []) ++ line_feed ∷ []) ++ (crlf ++ b) =
      whole
      ∙ sym (append_assoc a (13 ∷ []) (10 ∷ 13 ∷ 10 ∷ b))
      ∙ sym (append_assoc (a ++ 13 ∷ []) (line_feed ∷ []) (13 ∷ 10 ∷ b)) in
    (
      a,
      b,
      rw (n, t) (take-append ((a ++ 13 ∷ []) ++ line_feed ∷ []) (crlf ++ b)),
      rw (n, t) (drop-append ((a ++ 13 ∷ []) ++ line_feed ∷ []) (crlf ++ b)),
    )

-- Where a message has a complete head, the rewritten message is a head and then the blank line and
-- the body that were received. The lines of that head are the received head's lines that are no
-- header of the given names, unchanged and in order, and then the lines of the new headers; and its
-- lines that are headers of a given name are those of the new headers alone.
pub rewrite_head_lem :
    (received : Bytes) (pos : ℕ) (names : List Text) (headers : List (Text × Text))
    → find_head_end received ≡ some pos
    → (head body : Bytes) × (rewrite_head received pos names headers ≡ head ++ (crlf ++ body))
      × (drop (pos + 2) received ≡ crlf ++ body)
      × (split_inclusive head
          ≡ keep (λ w. not (is_match names w)) (split_inclusive (take (pos + 2) received))
            ++ split_inclusive (header_lines headers))
      × ((name : Text)
          → Any (λ n. n ≡ name) names
          → keep (names_header name) (split_inclusive head)
            ≡ keep (names_header name) (split_inclusive (header_lines headers)))
unfolding rewrite_head
rewrite_head_lem received pos names headers h =
    let (a, body, before, after) = head-cut received pos h in
    let old : Bytes = take (pos + 2) received in
    let head : Bytes = strip_headers_by_name old names ++ header_lines headers in
    let lines : split_inclusive head
        ≡ keep (λ w. not (is_match names w)) (split_inclusive old)
          ++ split_inclusive (header_lines headers) =
      subst
        (λ t.
          split_inclusive (strip_headers_by_name t names ++ header_lines headers)
          ≡ keep (λ w. not (is_match names w)) (split_inclusive t)
            ++ split_inclusive (header_lines headers))
        (sym before)
        (split_inclusive-strip_headers_by_name (a ++ 13 ∷ []) (header_lines headers) names) in
    (
      head,
      body,
      ap (λ t. strip_headers_by_name old names ++ (header_lines headers ++ t)) after
          ∙ sym (
              append_assoc (strip_headers_by_name old names) (header_lines headers) (crlf ++ body)),
      after,
      lines,
      λ name listed.
          ap (keep (names_header name)) lines
          ∙ keep-append (names_header name)
              (keep (λ w. not (is_match names w)) (split_inclusive old))
              (split_inclusive (header_lines headers))
          ∙ ap (λ ws. ws ++ keep (names_header name) (split_inclusive (header_lines headers)))
              (keep-listed name names (split_inclusive old) listed),
    )

-- The bytes have an empty line, the end of a head.
abbrev pub HasHead : Bytes → Type 0
HasHead received = (a : Bytes) × (b : Bytes) × (received ≡ a ++ (crlf ++ (crlf ++ b)))

find_head_end-crlf : (a b : Bytes) → find_head_end (a ++ (crlf ++ (crlf ++ b))) ≢ none
unfolding find_head_end starts_with
find_head_end-crlf [] b = λ e. cc
find_head_end-crlf (x ∷ a) b = λ e. ground (arith, find_head_end-crlf a b)

-- No end of a head is overlooked.
pub find_head_end-none : (received : Bytes) → find_head_end received ≡ none → ¬ HasHead received
find_head_end-none received e (a, b, is) = find_head_end-crlf a b (ap find_head_end (sym is) ∙ e)
