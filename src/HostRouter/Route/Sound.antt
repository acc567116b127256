-- ===== src/HostRouter/Route/Sound.antt =====
-- A table built from a list of patterns answers only with patterns of that list.
use scety.Prelude.{ℕ, ◌≡◌, refl, sym, subst, some, List, [], ◌∷◌, All, Any, here, there, All-map}
use scety.Text.{Text, split}
use scety.HostRouter.Table.{dot, HostRouter, new, add_pattern, matches}
use scety.HostRouter.Route.Held.{Serves, Holds}
use scety.HostRouter.Route.Finders.{matches-Justified}
use scety.HostRouter.Route.Adds.{new-Holds}
use scety.HostRouter.Route.Patterns.{add_pattern-Holds}

-- `add_pattern` for each pattern and index in turn.
unfoldable pub add_patterns : List (Text × ℕ) → HostRouter → HostRouter
unfolding add_pattern
add_patterns [] r = r
add_patterns ((pattern, index) ∷ entries) r = add_patterns entries (add_pattern pattern index r)

add_patterns-Holds :
    (E : List Text → ℕ → Type 0) (entries : List (Text × ℕ)) (r : HostRouter)
    → All (λ (e : Text × ℕ). E (split dot e.0) e.1) entries
    → Holds E r
    → Holds E (add_patterns entries r)
unfolding add_patterns
add_patterns-Holds E [] r listed h = h
add_patterns-Holds E ((pattern, index) ∷ entries) r listed h =
    add_patterns-Holds E entries (add_pattern pattern index r) listed.1
      (add_pattern-Holds E index r h pattern listed.0)

abbrev Listed : List (Text × ℕ) → List Text → ℕ → Type 0
Listed entries ls i = Any (λ (e : Text × ℕ). (split dot e.0 ≡ ls) × (e.1 ≡ i)) entries

All-Listed :
    (entries : List (Text × ℕ)) → All (λ (e : Text × ℕ). Listed entries (split dot e.0) e.1) entries
All-Listed [] = tt
All-Listed (e ∷ entries) =
    (here (refl, refl), All-map _ _ entries (λ x l. there l) (All-Listed entries))

Serves-Listed :
    (entries : List (Text × ℕ)) (ls hs : List Text) (i : ℕ)
    → Listed entries ls i
    → Serves ls hs
    → Any (λ (e : Text × ℕ). (e.1 ≡ i) × Serves (split dot e.0) hs) entries
Serves-Listed (e ∷ entries) ls hs i (here (same, index)) s =
    here (index, subst (λ k. Serves k hs) (sym same) s)
Serves-Listed (e ∷ entries) ls hs i (there l) s = there (Serves-Listed entries ls hs i l s)
Serves-Listed [] ls hs i l s = elim l [ ]

-- If a table built from a list of patterns answers a host with an index, then some pattern of the
-- list was added with that index and serves the host: it is a lone `*`, or its labels match the
-- host's labels, where `*` takes one label and `**` any number of them.
pub matches-add_patterns_sound :
    (entries : List (Text × ℕ)) (host : Text) (i : ℕ)
    → matches (add_patterns entries new) host ≡ some i
    → Any (λ (e : Text × ℕ). (e.1 ≡ i) × Serves (split dot e.0) (split dot host)) entries
matches-add_patterns_sound entries host i found =
    let (ls, listed, serves) =
      matches-Justified (Listed entries) (add_patterns entries new) host i
        (add_patterns-Holds (Listed entries) entries new (All-Listed entries)
          (new-Holds (Listed entries)))
        found in
    Serves-Listed entries ls (split dot host) i listed serves
