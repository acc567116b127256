-- ===== src/Text/Words.antt =====
-- `split` and `join` undo one another, the words of a text hold no separator, and `split_once` and
-- `rsplit_once` take the first and the last word off.
use scety.Prelude.{
  ℕ, ◌≡◌, refl, sym, ap, ◌∙◌, ◌≢◌, inl, inr, Bool, true, false, none, some, List, [], ◌∷◌, ◌++◌,
  arith, ◌==◌, if◌then◌else◌, All, Bool-cases, Option-cases,
}
use scety.Text.Defs.{Text, split, split_once, rsplit_once, join, cons_head}

-- No character of the word is the separator.
unfoldable pub free : ℕ → Text → Bool
free c [] = true
free c (x ∷ s) = if x == c then false else free c s

abbrev pub Free : ℕ → Text → Type 0
Free c s = free c s ≡ true

pub split-ne-nil : (c : ℕ) (s : Text) → split c s ≢ []
unfolding split
split-ne-nil c [] = λ e. cc
split-ne-nil c (x ∷ s) = λ e. ground (arith, split-ne-nil c s)

cons_head-Free :
    (c x : ℕ) (ws : List Text) → (x == c) ≡ false → All (Free c) ws → All (Free c) (cons_head x ws)
unfolding free
cons_head-Free c x [] h fs = (rw h, tt)
cons_head-Free c x (w ∷ ws) h fs = (rw h fs.0, fs.1)

pub split-Free : (c : ℕ) (s : Text) → All (Free c) (split c s)
unfolding split free
split-Free c [] = (refl, tt)
split-Free c (x ∷ s) = elim (Bool-cases (x == c)) [
  | inl e ↦ rw e (refl, split-Free c s)
  | inr e ↦ rw e (cons_head-Free c x (split c s) e (split-Free c s))
]

-- A word with no separator is its own only word.
pub split_of_Free : (c : ℕ) (w : Text) → Free c w → split c w ≡ w ∷ []
unfolding split free
split_of_Free c [] h = refl
split_of_Free c (x ∷ w) h = ground (arith, split_of_Free c w)

pub split-append_Free : (c : ℕ) (w s : Text) → Free c w → split c (w ++ c ∷ s) ≡ w ∷ split c s
unfolding split free
split-append_Free c [] s h = ground arith
split-append_Free c (x ∷ w) s h = ground (arith, split-append_Free c w s)

-- Joining words and splitting the text again gives the words back.
pub split-join : (c : ℕ) (ws : List Text) → ws ≢ [] → All (Free c) ws → split c (join c ws) ≡ ws
unfolding join
split-join c [] h fs = absurd (h refl)
split-join c (w ∷ []) h fs = split_of_Free c w fs.0
split-join c (w ∷ v ∷ ws) h fs =
    split-append_Free c w (join c (v ∷ ws)) fs.0 ∙ ap (◌∷◌ w) (split-join c (v ∷ ws) (λ e. cc) fs.1)

join-cons_head : (c x : ℕ) (ws : List Text) → ws ≢ [] → join c (cons_head x ws) ≡ x ∷ join c ws
unfolding join
join-cons_head c x [] h = absurd (h refl)
join-cons_head c x (w ∷ []) h = refl
join-cons_head c x (w ∷ v ∷ ws) h = refl

join-nil_cons : (c : ℕ) (ws : List Text) → ws ≢ [] → join c ([] ∷ ws) ≡ c ∷ join c ws
unfolding join
join-nil_cons c [] h = absurd (h refl)
join-nil_cons c (w ∷ ws) h = refl

-- Splitting a text and joining the words gives the text back.
pub join-split : (c : ℕ) (s : Text) → join c (split c s) ≡ s
unfolding split
join-split c [] = unfold join in refl
join-split c (x ∷ s) = ground (
  arith,
  join-split c s,
  join-nil_cons c (split c s) (split-ne-nil c s),
  join-cons_head c x (split c s) (split-ne-nil c s),
)

-- Two texts with the same words are the same text.
pub split_injective : (c : ℕ) (s t : Text) → split c s ≡ split c t → s ≡ t
split_injective c s t e = sym (join-split c s) ∙ ap (join c) e ∙ join-split c t

-- Lists of words that join to one text are one list.
pub join_injective :
    (c : ℕ) (us ws : List Text)
    → us ≢ []
    → ws ≢ []
    → All (Free c) us
    → All (Free c) ws
    → join c us ≡ join c ws
    → us ≡ ws
join_injective c us ws h k fs gs e =
    sym (split-join c us h fs) ∙ ap (split c) e ∙ split-join c ws k gs

pub split_once-none : (c : ℕ) (s : Text) → split_once c s ≡ none → split c s ≡ s ∷ []
unfolding split split_once
split_once-none c [] h = refl
split_once-none c (x ∷ s) h = ground (arith, split_once-none c s)

-- `split_once` takes the first word off.
pub split_once-some :
    (c : ℕ) (s a b : Text) → split_once c s ≡ some (a, b) → split c s ≡ a ∷ split c b
unfolding split split_once
split_once-some c [] a b h = cc
split_once-some c (x ∷ s) a b h = elim (Bool-cases (x == c)) [
  | inl e ↦ ground arith
  | inr e ↦ elim (Option-cases (split_once c s)) [
    | inl n ↦ ground arith
    | inr (p, m) ↦ ground (arith, split_once-some c s p.0 p.1)
  ]
]

pub rsplit_once-none : (c : ℕ) (s : Text) → rsplit_once c s ≡ none → split c s ≡ s ∷ []
unfolding split rsplit_once
rsplit_once-none c [] h = refl
rsplit_once-none c (x ∷ s) h = ground (arith, rsplit_once-none c s)

cons_head-append :
    (x : ℕ) (ws vs : List Text) → ws ≢ [] → cons_head x (ws ++ vs) ≡ cons_head x ws ++ vs
cons_head-append x [] vs h = absurd (h refl)
cons_head-append x (w ∷ ws) vs h = refl

-- The words of two texts with a separator between.
pub split-append : (c : ℕ) (u w : Text) → split c (u ++ c ∷ w) ≡ split c u ++ split c w
unfolding split
split-append c [] w = ground arith
split-append c (x ∷ u) w =
    ground
      (arith, split-append c u w, cons_head-append x (split c u) (split c w) (split-ne-nil c u))

-- `rsplit_once` takes the last word off.
pub rsplit_once-some :
    (c : ℕ) (s a b : Text) → rsplit_once c s ≡ some (a, b) → split c s ≡ split c a ++ b ∷ []
unfolding split rsplit_once
rsplit_once-some c [] a b h = cc
rsplit_once-some c (x ∷ s) a b h = elim (Option-cases (rsplit_once c s)) [
  | inl n ↦ ground (arith, rsplit_once-none c s n)
  | inr (p, m) ↦ ground (
    arith,
    rsplit_once-some c s p.0 p.1,
    cons_head-append x (split c p.0) (p.1 ∷ []) (split-ne-nil c p.0),
  )
]
