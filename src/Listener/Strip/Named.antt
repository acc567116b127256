-- ===== src/Listener/Strip/Named.antt =====
-- Which lines of a head are a header of some name, whatever the case of its letters.
use scety.Prelude.{
  ℕ, zero, suc, ◌+◌, ◌-◌, ◌≤◌, ◌≡◌, refl, sym, ap, ◌∙◌, ◌⊎◌, inl, inr, true, [], ◌∷◌, ◌++◌, arith,
  length, get_or, take, length-append, take-append, Bool-cases, ==_iff,
}
use mathlib.Core.List.{reverse-append}
use scety.Text.{Text, ends_with, starts_with, to_ascii_lowercase, eq_ignore_ascii_case}
use scety.Text.Utf8.{Bytes, as_bytes}
use scety.Listener.Strip.{crlf, strip_crlf, names_header}

-- One letter, in one case or the other.
abbrev pub SameLetter : ℕ → ℕ → Type 0
SameLetter x y =
    (x ≡ y) ⊎ (((65 ≤ x) × (x ≤ 90) × (y ≡ x + 32)) ⊎ ((65 ≤ y) × (y ≤ 90) × (x ≡ y + 32)))

abbrev pub SameLetters : Bytes → Bytes → Type 0
SameLetters [] [] = Unit {0}
SameLetters [] (y ∷ b) = ⊥
SameLetters (x ∷ a) [] = ⊥
SameLetters (x ∷ a) (y ∷ b) = SameLetter x y × SameLetters a b

-- The line is this name, in any case, then a colon, and then anything.
abbrev pub IsHeader : Text → Bytes → Type 0
IsHeader name line =
    (n : Bytes) × (rest : Bytes) × SameLetters n (as_bytes name) × (line ≡ n ++ b':' ∷ rest)

SameLetters-length : (a b : Bytes) → SameLetters a b → length a ≡ length b
SameLetters-length [] [] s = refl
SameLetters-length [] (y ∷ b) s = absurd s
SameLetters-length (x ∷ a) [] s = absurd s
SameLetters-length (x ∷ a) (y ∷ b) s = ap suc (SameLetters-length a b s.1)

SameLetter-lower : (x y : ℕ) → SameLetter x y → to_ascii_lowercase x ≡ to_ascii_lowercase y
unfolding to_ascii_lowercase
SameLetter-lower x y (inl e) = ap to_ascii_lowercase e
SameLetter-lower x y (inr (inl s)) = ground (arith, s.0, s.1, s.2)
SameLetter-lower x y (inr (inr s)) = ground (arith, s.0, s.1, s.2)

SameLetters-eq_ignore_ascii_case : (a b : Bytes) → SameLetters a b → eq_ignore_ascii_case a b ≡ true
unfolding eq_ignore_ascii_case
SameLetters-eq_ignore_ascii_case [] [] s = refl
SameLetters-eq_ignore_ascii_case [] (y ∷ b) s = absurd s
SameLetters-eq_ignore_ascii_case (x ∷ a) [] s = absurd s
SameLetters-eq_ignore_ascii_case (x ∷ a) (y ∷ b) s =
    let first = SameLetter-lower x y s.0 in
    let rest = SameLetters-eq_ignore_ascii_case a b s.1 in
    ground (arith, first, rest, ==_iff (to_ascii_lowercase x) (to_ascii_lowercase y))

-- A line that ends with CRLF has this behind its colon.
ends_with-crlf : (n rest : Bytes) → ends_with crlf (n ++ b':' ∷ rest) ≡ true → 2 ≤ length rest
unfolding ends_with starts_with
ends_with-crlf n [] e = absurd (cc (rw (reverse-append n (b':' ∷ [])) at e))
ends_with-crlf n (x ∷ []) e = absurd (ground (arith, (rw (reverse-append n (b':' ∷ x ∷ [])) at e)))
ends_with-crlf n (x ∷ y ∷ rest) e = omega arith

take-tail :
    (n rest : Bytes) (m k : ℕ)
    → m ≡ suc (length n + k)
    → take m (n ++ b':' ∷ rest) ≡ n ++ b':' ∷ take k rest
take-tail n rest zero k e = absurd (omega arith)
take-tail [] rest (suc m) k e = ap (λ j. b':' ∷ take j rest) (omega arith)
take-tail (x ∷ n) rest (suc m) k e = ap (◌∷◌ x) (take-tail n rest m k (omega arith))

strip_crlf-tail : (n rest : Bytes) → (t : Bytes) × (strip_crlf (n ++ b':' ∷ rest) ≡ n ++ b':' ∷ t)
unfolding strip_crlf
strip_crlf-tail n rest = elim (Bool-cases (ends_with crlf (n ++ b':' ∷ rest))) [
  | inr other ↦ (rest, rw other refl)
  | inl ends ↦ (
    take (length rest - 2) rest,
    rw ends (
        take-tail n rest (length (n ++ b':' ∷ rest) - 2) (length rest - 2)
          (ground (arith, length-append n (b':' ∷ rest), ends_with-crlf n rest ends))),
  )
]

get_or-append : (n rest : Bytes) (y : ℕ) → get_or (n ++ y ∷ rest) (length n) 0 ≡ y
get_or-append [] rest y = refl
get_or-append (x ∷ n) rest y = get_or-append n rest y

-- Each such line is found.
pub IsHeader-names_header :
    (name : Text) (line : Bytes) → IsHeader name line → names_header name line ≡ true
unfolding names_header
IsHeader-names_header name line (n, rest, same, e) =
    let (t, stripped) = strip_crlf-tail n rest in
    let size : length n ≡ length (as_bytes name) = SameLetters-length n (as_bytes name) same in
    let trimmed : strip_crlf line ≡ n ++ b':' ∷ t = ap strip_crlf e ∙ stripped in
    let start : take (length (as_bytes name)) (n ++ b':' ∷ t) ≡ n =
      ap (λ k. take k (n ++ b':' ∷ t)) (sym size) ∙ take-append n (b':' ∷ t) in
    let equal : eq_ignore_ascii_case n (as_bytes name) ≡ true =
      SameLetters-eq_ignore_ascii_case n (as_bytes name) same in
    let colon : get_or (n ++ b':' ∷ t) (length (as_bytes name)) 0 ≡ b':' =
      ap (λ k. get_or (n ++ b':' ∷ t) k 0) (sym size) ∙ get_or-append n t b':' in
    rw (names_header, trimmed, start, equal, colon)
      (ground (arith, length-append n (b':' ∷ t), size))
