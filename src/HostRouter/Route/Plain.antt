-- ===== src/HostRouter/Route/Plain.antt =====
-- Labels without the character `*`, and the texts that they make up.
use scety.Prelude.{
  ℕ, ◌+◌, ◌-◌, ◌≡◌, refl, sym, ap, ◌∙◌, length, take, drop, length-append, take-append, true, false,
  not, List, [], ◌∷◌, ◌++◌, arith, ◌==◌, All, count, all, if_cases,
}
use scety.Text.{Text, codes, text_eq_iff, cons_head, split, starts_with, ends_with}
use scety.HostRouter.Route.Parts.{starts_with-append, ends_with-append}
use scety.HostRouter.Labels.{star, double_star}
use scety.HostRouter.Literal.{Literal}
use scety.HostRouter.Table.{dot, contains_star}

abbrev pub stars : Text → ℕ
stars s = count (λ c. c == b'*') s

abbrev pub IsPlain : Text → Type 0
IsPlain l = contains_star l ≡ false

stars-IsPlain : (s : Text) → stars s ≡ 0 → IsPlain s
unfolding contains_star
stars-IsPlain [] h = refl
stars-IsPlain (c ∷ s) h = ground (arith, stars-IsPlain s)

pub IsPlain-Literal : (l : Text) → IsPlain l → Literal l
unfolding contains_star
IsPlain-Literal l h = ground (arith, text_eq_iff l star, text_eq_iff l double_star)

cons_head-IsPlain :
    (x : ℕ) (ws : List Text) → x == b'*' ≡ false → All IsPlain ws → All IsPlain (cons_head x ws)
unfolding contains_star
cons_head-IsPlain x [] e h = (ground arith, tt)
cons_head-IsPlain x (w ∷ ws) e h = (ground (arith, h.0), h.1)

-- A text without stars has labels without stars.
split-IsPlain : (c : ℕ) (s : Text) → IsPlain s → All IsPlain (split c s)
unfolding split contains_star
split-IsPlain c [] h = (refl, tt)
split-IsPlain c (x ∷ s) h =
    if_cases (All IsPlain) (x == c) ([] ∷ split c s) (cons_head x (split c s))
      (λ _. (refl, split-IsPlain c s (ground arith)))
      (λ _. cons_head-IsPlain x (split c s) (ground arith) (split-IsPlain c s (ground arith)))

pub All-IsPlain-Literal : (ls : List Text) → All IsPlain ls → All Literal ls
All-IsPlain-Literal [] h = tt
All-IsPlain-Literal (l ∷ ls) h = (IsPlain-Literal l h.0, All-IsPlain-Literal ls h.1)

pub all-IsPlain : (ls : List Text) → all (λ l. not (contains_star l)) ls ≡ true → All IsPlain ls
all-IsPlain [] h = tt
all-IsPlain (l ∷ ls) h = (ground arith, all-IsPlain ls (ground arith))

pub stars-Literal : (s : Text) → stars s ≡ 0 → All Literal (split dot s)
stars-Literal s h = All-IsPlain-Literal (split dot s) (split-IsPlain dot s (stars-IsPlain s h))

stars-append : (s t : Text) → stars (s ++ t) ≡ stars s + stars t
stars-append [] t = omega arith
stars-append (c ∷ s) t = ground (arith, stars-append s t)

-- The one star of `*.` or `.*` is not in the rest of the pattern.
pub stars-drop_front :
    (pattern : Text)
    → stars pattern ≡ 1
    → starts_with (codes "*.") pattern ≡ true
    → stars (drop 2 pattern) ≡ 0
stars-drop_front pattern single e =
    let (rest, whole) = starts_with-append (codes "*.") pattern e in
    rw whole (omega (arith, sym (ap stars whole) ∙ single))

pub stars-take_back :
    (pattern : Text)
    → stars pattern ≡ 1
    → ends_with (codes ".*") pattern ≡ true
    → stars (take (length pattern - 2) pattern) ≡ 0
stars-take_back pattern single e =
    let (front, whole) = ends_with-append (codes ".*") pattern e in
    let size = length-append front (codes ".*") in
    let n : length (front ++ codes ".*") - 2 ≡ length front = omega arith in
    rw (whole, n, take-append)
      (omega (arith, sym (ap stars whole) ∙ single, stars-append front (codes ".*")))
