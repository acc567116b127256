-- ===== src/Text/Replace.antt =====
-- `s.replace(p, to)`, and what it leaves alone.
use scety.Prelude.{ℕ, Bool, ◌||◌, none, some, List, [], ◌∷◌, ◌++◌}
use scety.Text.Defs.{Text, strip_prefix, starts_with}

-- Each round takes at least a character, so the fuel is the text itself.
replace_from : List ℕ → Text → Text → Text → Text
unfolding strip_prefix
replace_from fuel p to [] = []
replace_from [] p to (x ∷ s) = x ∷ s
replace_from (_ ∷ fuel) p to (x ∷ s) = elim (strip_prefix p (x ∷ s)) [
  | none ↦ x ∷ replace_from fuel p to s
  | some rest ↦ to ++ replace_from fuel p to rest
]

-- `s.replace(p, to)` for a text `p` that is not empty: from the left, without overlap.
unfoldable pub replace : Text → Text → Text → Text
unfolding replace_from
replace p to s = replace_from s p to s

-- `s.contains(p)`
unfoldable pub contains : Text → Text → Bool
unfolding starts_with
contains p [] = starts_with p []
contains p (x ∷ s) = let rest = contains p s in starts_with p (x ∷ s) || rest
