-- ===== src/Listener/Strip/Lines.antt =====
-- Lines as `split_inclusive` gives them: each ends with its only line feed, the last perhaps not.
use scety.Prelude.{
  ℕ, ◌≡◌, refl, ap, ◌∙◌, inl, inr, ◌≢◌, Bool, true, false, List, [], ◌∷◌, ◌++◌, arith, ◌==◌,
  if◌then◌else◌, All, Bool-cases, is_empty, append_assoc,
}
use scety.Text.Utf8.{Bytes}
use scety.Listener.Strip.{line_feed, cons_line, split_inclusive}

-- A line feed at the end, and none before.
unfoldable pub terminated : Bytes → Bool
terminated [] = false
terminated (x ∷ s) = if x == line_feed then is_empty s else terminated s

pub split_inclusive-append :
    (w s : Bytes) → terminated w ≡ true → split_inclusive (w ++ s) ≡ w ∷ split_inclusive s
unfolding split_inclusive terminated
split_inclusive-append [] s t = absurd (cc)
split_inclusive-append (x ∷ []) s t = ground arith
split_inclusive-append (x ∷ y ∷ w) s t = ground (arith, split_inclusive-append (y ∷ w) s)

-- Every text is the lines that `split_inclusive` finds.
abbrev pub flatten : List Bytes → Bytes
flatten [] = []
flatten (w ∷ ws) = w ++ flatten ws

abbrev pub Terminated : List Bytes → Type 0
Terminated ws = All (λ w. terminated w ≡ true) ws

-- Lines with their line feeds are found again, before any text.
pub split_inclusive-flatten :
    (ws : List Bytes) (s : Bytes)
    → Terminated ws
    → split_inclusive (flatten ws ++ s) ≡ ws ++ split_inclusive s
split_inclusive-flatten [] s t = refl
split_inclusive-flatten (w ∷ ws) s t =
    ap split_inclusive (append_assoc w (flatten ws) s)
    ∙ split_inclusive-append w (flatten ws ++ s) t.0
    ∙ ap (◌∷◌ w) (split_inclusive-flatten ws s t.1)

cons_line-Terminated :
    (x : ℕ) (ws : List Bytes)
    → (x == line_feed) ≡ false
    → ws ≢ []
    → Terminated ws
    → Terminated (cons_line x ws)
unfolding terminated
cons_line-Terminated x [] e h t = absurd (h refl)
cons_line-Terminated x (w ∷ ws) e h t = (rw e t.0, t.1)

split_inclusive_snoc-ne-nil : (s : Bytes) → split_inclusive (s ++ line_feed ∷ []) ≢ []
unfolding split_inclusive
split_inclusive_snoc-ne-nil [] = λ e. cc
split_inclusive_snoc-ne-nil (x ∷ s) = λ e. ground arith

-- A text that ends with a line feed has only whole lines.
pub split_inclusive-Terminated : (s : Bytes) → Terminated (split_inclusive (s ++ line_feed ∷ []))
unfolding split_inclusive terminated
split_inclusive-Terminated [] = (refl, tt)
split_inclusive-Terminated (x ∷ s) = elim (Bool-cases (x == line_feed)) [
  | inl e ↦ rw e (rw e, split_inclusive-Terminated s)
  | inr e ↦
      rw e
        (cons_line-Terminated x _ e (split_inclusive_snoc-ne-nil s) (split_inclusive-Terminated s))
]
