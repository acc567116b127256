-- ===== src/HostRouter/Route/Complete.antt =====
-- A host that a supported pattern serves is found, whatever else the table holds.
use scety.Prelude.{
  ℕ, ◌-◌, ◌≡◌, refl, sym, subst, ◌∙◌, inl, inr, true, ◌&&◌, ◌||◌, List, [], ◌∷◌, arith, ◌==◌,
  ==_iff, &&_iff, Found, length, take, drop, Any, here, there, if_cases,
}
use scety.Text.{Text, codes, text_eq, split, starts_with, ends_with}
use scety.Text.Words.{split_injective}
use scety.Map
use scety.HostRouter.Labels.{star, double_star, Matches}
use scety.HostRouter.Table.{dot, HostRouter, new, add_pattern, matches}
use scety.HostRouter.Route.Held.{Serves}
use scety.HostRouter.Route.Parts.{split-leading, split-trailing}
use scety.HostRouter.Route.Plain.{stars, stars-Literal, stars-drop_front, stars-take_back}
use scety.HostRouter.Route.Grows.{Hit, by_exact, by_edge_leading, by_edge_trailing, Hit-matches}
use scety.HostRouter.Route.Extends.{Hit-Extends, add_pattern-Extends}
use scety.HostRouter.Route.Covers.{exact-Found, leading-Found, trailing-Found}
use scety.HostRouter.Route.Wildcards.{Supported}
use scety.HostRouter.Route.Sound.{add_patterns}
use scety.HostRouter.Route.Stored.{add_catch_all-Hit, add_labels-Hit}

module _ (index : ℕ) (r : HostRouter) (host : Text) where
  edge_leading-Hit :
      (pattern : Text)
      → stars pattern ≡ 1
      → starts_with (codes "*.") pattern ≡ true
      → Matches (split dot pattern) (split dot host)
      → Hit
          (record r { leading_wildcards = Map.insert (drop 2 pattern) index r.leading_wildcards })
          host
  edge_leading-Hit pattern single e d = by_edge_leading (
      leading-Found (drop 2 pattern) host index r.leading_wildcards
        (stars-Literal (drop 2 pattern) (stars-drop_front pattern single e))
        (subst (λ k. Matches k (split dot host)) (split-leading pattern e) d))

  edge_trailing-Hit :
      (pattern : Text)
      → stars pattern ≡ 1
      → ends_with (codes ".*") pattern ≡ true
      → Matches (split dot pattern) (split dot host)
      → Hit
          (record r {
            trailing_wildcards =
                Map.insert (take (length pattern - 2) pattern) index r.trailing_wildcards;
          })
          host
  edge_trailing-Hit pattern single e d =
      let front : Text = take (length pattern - 2) pattern in
      by_edge_trailing (
        trailing-Found front host index r.trailing_wildcards
          (stars-Literal front (stars-take_back pattern single e))
          (subst (λ k. Matches k (split dot host)) (split-trailing pattern e) d))

  lone-Hit :
      (pattern : Text) → split dot pattern ≡ star ∷ [] → Hit (add_pattern pattern index r) host
  unfolding add_pattern text_eq
  lone-Hit pattern e =
      let same : pattern ≡ star = split_injective dot pattern star (e ∙ unfold split in refl) in
      subst (λ p. Hit (add_pattern p index r) host) (sym same) (add_catch_all-Hit index r host)

  add_pattern-Hit :
      (pattern : Text)
      → Supported (split dot pattern)
      → Serves (split dot pattern) (split dot host)
      → Hit (add_pattern pattern index r) host
  unfolding add_pattern
  add_pattern-Hit pattern supported (inl e) = lone-Hit pattern e
  add_pattern-Hit pattern supported (inr d) =
      if_cases (λ s. Hit s host) (text_eq pattern star || text_eq pattern double_star) _ _
        (λ _. add_catch_all-Hit index r host)
        (λ _.
          if_cases (λ s. Hit s host) (stars pattern == 0) _ _
            (λ none_there. by_exact (
              exact-Found pattern host index r.exact_matches
                (stars-Literal pattern (ground (arith, none_there))) d))
            (λ _.
              if_cases (λ s. Hit s host) (stars pattern == 1 && starts_with (codes "*.") pattern) _
                _
                (λ t.
                  let (one, e) = (&&_iff _ _).0 t in
                  edge_leading-Hit pattern ((==_iff _ _).0 one) e d)
                (λ _.
                  if_cases (λ s. Hit s host) (stars pattern == 1 && ends_with (codes ".*") pattern)
                    _ _
                    (λ t.
                      let (one, e) = (&&_iff _ _).0 t in
                      edge_trailing-Hit pattern ((==_iff _ _).0 one) e d)
                    (λ _. add_labels-Hit index r host (split dot pattern) supported d))))

add_patterns-Hit :
    (entries : List (Text × ℕ)) (r : HostRouter) (host : Text)
    → Hit r host
    → Hit (add_patterns entries r) host
unfolding add_patterns
add_patterns-Hit [] r host h = h
add_patterns-Hit ((pattern, index) ∷ entries) r host h =
    add_patterns-Hit entries (add_pattern pattern index r) host
      (Hit-Extends host (add_pattern-Extends index r pattern) h)

-- The entry has a supported pattern, and the pattern serves the host.
abbrev pub ServesSupported : Text → Text × ℕ → Type 0
ServesSupported host e = Supported (split dot e.0) × Serves (split dot e.0) (split dot host)

served-Hit :
    (entries : List (Text × ℕ)) (r : HostRouter) (host : Text)
    → Any (ServesSupported host) entries
    → Hit (add_patterns entries r) host
unfolding add_patterns
served-Hit ((pattern, index) ∷ entries) r host (here (supported, serves)) =
    add_patterns-Hit entries (add_pattern pattern index r) host
      (add_pattern-Hit index r host pattern supported serves)
served-Hit [] r host a = elim a [ ]
served-Hit ((pattern, index) ∷ entries) r host (there a) =
    served-Hit entries (add_pattern pattern index r) host a

-- If a list of patterns has one that serves the host, and that pattern is supported, that is it has
-- a label `*`, or at most one label `**`, or `**` as its first label, then the table built from the
-- list answers the host with some index, whatever the other patterns are and in whatever order they
-- were added.
pub matches-add_patterns_complete :
    (entries : List (Text × ℕ)) (host : Text)
    → Any (ServesSupported host) entries
    → Found (matches (add_patterns entries new) host)
matches-add_patterns_complete entries host served =
    Hit-matches (add_patterns entries new) host (served-Hit entries new host served)
