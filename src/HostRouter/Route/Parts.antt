-- ===== src/HostRouter/Route/Parts.antt =====
-- What the tests of `add_pattern` say of the pattern's text and of its labels.
use mathlib.Core.List.{reverse-append, reverse-reverse}
use scety.Prelude.{
  ℕ, zero, suc, ◌+◌, ◌-◌, ◌≡◌, refl, sym, ap, ap₂, ◌∙◌, true, some, List, [], ◌∷◌, ◌++◌, reverse,
  arith, length, take, drop, position, length-append, take-append,
}
use scety.Text.{Text, codes, text_eq, text_eq_iff, split, starts_with, ends_with}
use scety.Text.Words.{split-append}
use scety.HostRouter.Labels.{star, double_star}
use scety.HostRouter.Table.{dot, first_is_double_star, last_is_double_star, inner_position}

pub starts_with-append : (p s : Text) → starts_with p s ≡ true → (rest : Text) × (s ≡ p ++ rest)
unfolding starts_with
starts_with-append [] s h = (s, refl)
starts_with-append (c ∷ p) [] h = absurd (cc)
starts_with-append (c ∷ p) (x ∷ s) h =
    let (rest, e) = starts_with-append p s (ground arith) in (rest, ap₂ ◌∷◌ (ground arith) e)

pub ends_with-append : (p s : Text) → ends_with p s ≡ true → (front : Text) × (s ≡ front ++ p)
unfolding ends_with
ends_with-append p s h =
    let (rest, e) = starts_with-append (reverse p) (reverse s) h in
    (
      reverse rest,
      sym (reverse-reverse s)
          ∙ ap reverse e
          ∙ reverse-append (reverse p) rest
          ∙ ap (λ t. reverse rest ++ t) (reverse-reverse p),
    )

-- `*.` and then the known part.
pub split-leading :
    (pattern : Text)
    → starts_with (codes "*.") pattern ≡ true
    → split dot pattern ≡ star ∷ split dot (drop 2 pattern)
split-leading pattern h =
    let (rest, e) = starts_with-append (codes "*.") pattern h in rw e (unfold split in refl)

-- The known part and then `.*`.
pub split-trailing :
    (pattern : Text)
    → ends_with (codes ".*") pattern ≡ true
    → split dot pattern ≡ split dot (take (length pattern - 2) pattern) ++ star ∷ []
split-trailing pattern h =
    let (front, whole) = ends_with-append (codes ".*") pattern h in
    let size = length-append front (codes ".*") in
    let n : length (front ++ codes ".*") - 2 ≡ length front = omega arith in
    rw (whole, n, take-append) (unfold split in split-append dot front star)

pub first_label :
    (labels : List Text) → first_is_double_star labels ≡ true → labels ≡ double_star ∷ drop 1 labels
first_label [] h = absurd (cc)
first_label (l ∷ ls) h = ap (λ x. x ∷ ls) ((text_eq_iff l double_star).0 h)

pub last_label :
    (labels : List Text)
    → last_is_double_star labels ≡ true
    → labels ≡ take (length labels - 1) labels ++ double_star ∷ []
unfolding last_is_double_star
last_label [] h = absurd (cc)
last_label (l ∷ []) h = ap (λ x. x ∷ []) ((text_eq_iff l double_star).0 h)
last_label (l ∷ k ∷ ls) h =
    let n : suc (suc (length ls)) - 1 ≡ suc (suc (length ls) - 1) = omega arith in
    rw n (ap (◌∷◌ l) (last_label (k ∷ ls) h))

position-split :
    (w : Text) (labels : List Text) (pos : ℕ)
    → position (λ l. text_eq l w) labels ≡ some pos
    → labels ≡ take pos labels ++ w ∷ drop (pos + 1) labels
position-split w [] pos h = absurd (cc)
position-split w (l ∷ ls) zero h = ap (λ x. x ∷ ls) (ground (arith, text_eq_iff l w))
position-split w (l ∷ ls) (suc pos) h =
    let n : suc pos + 1 ≡ suc (pos + 1) = omega arith in
    rw n (ap (◌∷◌ l) (position-split w ls pos (ground arith)))

pub inner_position-split :
    (w : Text) (labels : List Text) (pos : ℕ)
    → inner_position w labels ≡ some pos
    → labels ≡ take pos labels ++ w ∷ drop (pos + 1) labels
unfolding inner_position
inner_position-split w labels pos h = position-split w labels pos (ground arith)
