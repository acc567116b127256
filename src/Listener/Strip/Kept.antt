-- ===== src/Listener/Strip/Kept.antt =====
-- `strip_headers_by_name` drops the lines of the named headers and keeps all others as they are.
use scety.Prelude.{
  ◌≡◌, refl, ap, ◌∙◌, inl, inr, Bool, true, not, List, [], ◌∷◌, ◌++◌, arith, if◌then◌else◌, Any,
  here, there, Bool-cases,
}
use scety.Text.{Text}
use scety.Text.Utf8.{Bytes}
use scety.Listener.Strip.{
  line_feed, split_inclusive, is_match, names_header, strip_lines, strip_headers_by_name,
}
use scety.Listener.Strip.Lines.{
  flatten, Terminated, split_inclusive-flatten, split_inclusive-Terminated,
}

-- The items that pass a test.
unfoldable pub keep : (Bytes → Bool) → List Bytes → List Bytes
keep p [] = []
keep p (w ∷ ws) = if p w then w ∷ keep p ws else keep p ws

keep-Terminated : (p : Bytes → Bool) (ws : List Bytes) → Terminated ws → Terminated (keep p ws)
unfolding keep
keep-Terminated p [] t = tt
keep-Terminated p (w ∷ ws) t = elim (Bool-cases (p w)) [
  | inl e ↦ rw e (t.0, keep-Terminated p ws t.1)
  | inr e ↦ rw e (keep-Terminated p ws t.1)
]

strip_lines-keep :
    (names : List Text) (ws : List Bytes)
    → strip_lines names ws ≡ flatten (keep (λ w. not (is_match names w)) ws)
unfolding strip_lines keep
strip_lines-keep names [] = refl
strip_lines-keep names (w ∷ ws) = ground (arith, strip_lines-keep names ws)

-- For a head that ends with a line feed, whatever follows: the lines of the result are the lines of
-- the head that are no header of the given names, unchanged and in order, and then the lines of
-- what follows.
pub split_inclusive-strip_headers_by_name :
    (head after : Bytes) (names : List Text)
    → split_inclusive (strip_headers_by_name (head ++ line_feed ∷ []) names ++ after)
      ≡ keep (λ w. not (is_match names w)) (split_inclusive (head ++ line_feed ∷ []))
        ++ split_inclusive after
unfolding strip_headers_by_name
split_inclusive-strip_headers_by_name head after names =
    let ws = split_inclusive (head ++ line_feed ∷ []) in
    let p = λ (w : Bytes). not (is_match names w) in
    ap (λ s. split_inclusive (s ++ after)) (strip_lines-keep names ws)
    ∙ split_inclusive-flatten (keep p ws) after
        (keep-Terminated p ws (split_inclusive-Terminated head))

pub keep-append :
    (p : Bytes → Bool) (xs ys : List Bytes) → keep p (xs ++ ys) ≡ keep p xs ++ keep p ys
unfolding keep
keep-append p [] ys = refl
keep-append p (x ∷ xs) ys = ground (arith, keep-append p xs ys)

-- A header of a listed name is among those that are dropped.
is_match_of_listed :
    (name : Text) (names : List Text) (w : Bytes)
    → Any (λ n. n ≡ name) names
    → names_header name w ≡ true
    → is_match names w ≡ true
is_match_of_listed name [] w a e = elim a [ ]
is_match_of_listed name (n ∷ names) w (here q) e = rw (q, e)
is_match_of_listed name (n ∷ names) w (there a) e =
    ground (arith, is_match_of_listed name names w a e)

-- No header of a listed name is left.
pub keep-listed :
    (name : Text) (names : List Text) (ws : List Bytes)
    → Any (λ n. n ≡ name) names
    → keep (names_header name) (keep (λ w. not (is_match names w)) ws) ≡ []
unfolding keep
keep-listed name names [] a = refl
keep-listed name names (w ∷ ws) a = elim (Bool-cases (is_match names w)) [
  | inl e ↦ rw e (keep-listed name names ws a)
  | inr e ↦ elim (Bool-cases (names_header name w)) [
    | inl n ↦ absurd (cc (is_match_of_listed name names w a n))
    | inr n ↦ rw (e, n) (keep-listed name names ws a)
  ]
]
