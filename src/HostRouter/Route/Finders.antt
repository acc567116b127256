-- ===== src/HostRouter/Route/Finders.antt =====
-- Each search of `HostRouter::matches` is justified by what the table holds, and so is the whole.
use scety.Prelude.{
  ℕ, ◌-◌, ◌≡◌, refl, subst, inl, inr, Bool, true, Option, some, List, [], ◌∷◌, ◌++◌, reverse, arith,
  leb, length, take, drop, All, or_else-some, when-some, All-drop, All-take, All-reverse,
  Bool-cases, Option-cases, length-take-le, leb→le,
}
use scety.Text.{Text, split, split_once, rsplit_once}
use scety.Text.Words.{Free, split-Free, split_once-some, rsplit_once-some}
use scety.Map
use scety.Map.{Map}
use scety.HostRouter.Labels.{
  star, double_star, Matches, Matches-self, Matches-append, Matches-double_star, covers-star, one,
  done,
}
use scety.HostRouter.Dp.{dp_host_matches, dp_host_matches-Matches}
use scety.HostRouter.Internal.{matches_single_internal_wildcard, matches_internal_double_star}
use scety.HostRouter.Internal.Laws.{
  matches_single_internal_wildcard_sound, matches_internal_double_star_sound,
}
use scety.HostRouter.Trie.Paths.{lookup_from-At}
use scety.HostRouter.Table.{
  dot, CountMap, InternalPattern, HostRouter, unless_empty, find_leading, find_trailing,
  find_internal, find_complex, find_edge_leading, find_edge_trailing, matches,
}
use scety.HostRouter.Route.Held.{
  Counted, Holds, Justified, same_labels, length-drop_last, Serves-leading, Serves-trailing,
}

module _ (E : List Text → ℕ → Type 0) where
  find_leading-Justified :
      (hs : List Text) (counted : CountMap) (i : ℕ)
      → All (Free dot) hs
      → All (Counted (λ ls. E (double_star ∷ ls))) counted
      → find_leading hs counted ≡ some i
      → Justified E hs i
  unfolding find_leading
  find_leading-Justified hs [] i free held e = absurd (cc)
  find_leading-Justified hs ((n, m) ∷ counted) i free held e = elim (or_else-some _ _ e) [
    | inl q ↦
        let (fits, hit) = when-some (leb n (length hs)) _ q in
        let (ls, known, size, words, entry) = held.0 _ i hit in
        let same =
          same_labels n (drop (length hs - n) hs) ls
            (length-drop_last n hs (leb→le n (length hs) fits)) size
            (All-drop (Free dot) (length hs - n) hs free) words known in
        (double_star ∷ ls, entry, Serves-leading (length hs - n) ls hs same)
    | inr q ↦ find_leading-Justified hs counted i free held.1 q
  ]

  find_trailing-Justified :
      (hs : List Text) (counted : CountMap) (i : ℕ)
      → All (Free dot) hs
      → All (Counted (λ ls. E (ls ++ double_star ∷ []))) counted
      → find_trailing hs counted ≡ some i
      → Justified E hs i
  unfolding find_trailing
  find_trailing-Justified hs [] i free held e = absurd (cc)
  find_trailing-Justified hs ((n, m) ∷ counted) i free held e = elim (or_else-some _ _ e) [
    | inl q ↦
        let (fits, hit) = when-some (leb n (length hs)) _ q in
        let (ls, known, size, words, entry) = held.0 _ i hit in
        let same =
          same_labels n (take n hs) ls (length-take-le n hs (leb→le n (length hs) fits)) size
            (All-take (Free dot) n hs free) words known in
        (ls ++ double_star ∷ [], entry, Serves-trailing n ls hs same)
    | inr q ↦ find_trailing-Justified hs counted i free held.1 q
  ]

  -- A loop over patterns whose test is sound for the label lists that `whole` puts together.
  find_internal-Justified :
      (test : List Text → List Text → List Text → Bool) (wild : Text) (hs : List Text)
      (patterns : List InternalPattern) (i : ℕ)
      → ((ps ss : List Text) → test ps ss hs ≡ true → Matches (ps ++ wild ∷ ss) hs)
      → All (λ (e : InternalPattern). E (e.0 ++ wild ∷ e.1) e.2) patterns
      → find_internal test hs patterns ≡ some i
      → Justified E hs i
  unfolding find_internal
  find_internal-Justified test wild hs [] i sound held e = absurd (cc)
  find_internal-Justified test wild hs ((ps, ss, j) ∷ patterns) i sound held e =
      elim (Bool-cases (test ps ss hs)) [
        | inl t ↦
            let same : j ≡ i = ground arith in
            (ps ++ wild ∷ ss, subst (E _) same held.0, inr (sound ps ss t))
        | inr f ↦ find_internal-Justified test wild hs patterns i sound held.1 (ground arith)
      ]

  find_complex-Justified :
      (hs : List Text) (patterns : List (List Text × ℕ)) (i : ℕ)
      → All (λ (e : List Text × ℕ). E e.0 e.1) patterns
      → find_complex hs patterns ≡ some i
      → Justified E hs i
  unfolding find_complex
  find_complex-Justified hs [] i held e = absurd (cc)
  find_complex-Justified hs ((ls, j) ∷ patterns) i held e =
      elim (Bool-cases (dp_host_matches ls hs)) [
        | inl t ↦
            let same : j ≡ i = ground arith in
            (ls, subst (E ls) same held.0, inr ((dp_host_matches-Matches ls hs).0 t))
        | inr f ↦ find_complex-Justified hs patterns i held.1 (ground arith)
      ]

  find_edge_leading-Justified :
      (host : Text) (m : Map ℕ) (i : ℕ)
      → ((p : Text) (v : ℕ) → Map.get p m ≡ some v → E (star ∷ split dot p) v)
      → find_edge_leading host m ≡ some i
      → Justified E (split dot host) i
  unfolding find_edge_leading
  find_edge_leading-Justified host m i held e = elim (Option-cases (split_once dot host)) [
    | inl n ↦ absurd (ground arith)
    | inr (p, q) ↦
        let words = split_once-some dot host p.0 p.1 q in
        (
          star ∷ split dot p.1,
          held p.1 i (ground arith),
          inr (rw words (one (covers-star p.0) (Matches-self (split dot p.1)))),
        )
  ]

  find_edge_trailing-Justified :
      (host : Text) (m : Map ℕ) (i : ℕ)
      → ((p : Text) (v : ℕ) → Map.get p m ≡ some v → E (split dot p ++ star ∷ []) v)
      → find_edge_trailing host m ≡ some i
      → Justified E (split dot host) i
  unfolding find_edge_trailing
  find_edge_trailing-Justified host m i held e = elim (Option-cases (rsplit_once dot host)) [
    | inl n ↦ absurd (ground arith)
    | inr (p, q) ↦
        let words = rsplit_once-some dot host p.0 p.1 q in
        (
          split dot p.0 ++ star ∷ [],
          held p.0 i (ground arith),
          inr (
              rw words (
                Matches-append (star ∷ []) (p.1 ∷ []) (Matches-self (split dot p.0))
                  (one (covers-star p.1) done))),
        )
  ]

unless_empty-some :
    {A : Type 0} (xs : List A) (o : Option ℕ) {i : ℕ} → unless_empty xs o ≡ some i → o ≡ some i
unless_empty-some [] o e = absurd (cc)
unless_empty-some (x ∷ xs) o e = e

module _ (E : List Text → ℕ → Type 0) (r : HostRouter) (host : Text) (i : ℕ) (h : Holds E r) where
  catch_all-Justified : r.catch_all ≡ some i → Justified E (split dot host) i
  catch_all-Justified e = elim (h.catch i e) [
    | inl one_star ↦ (star ∷ [], one_star, inl refl)
    | inr two_stars ↦ (double_star ∷ [], two_stars, inr (Matches-double_star (split dot host)))
  ]

  -- Whatever `matches` answers is justified by a pattern that was added.
  pub matches-Justified : matches r host ≡ some i → Justified E (split dot host) i
  unfolding matches
  matches-Justified e =
      let hs = split dot host in
      let words = split-Free dot host in
      elim (or_else-some _ _ e) [
        | inl q ↦
            (hs, h.exact host i (unless_empty-some r.exact_matches _ q), inr (Matches-self hs))
        | inr e ↦ elim (or_else-some _ _ e) [
          | inl q ↦
              find_leading-Justified E hs (reverse r.double_star_leading) i words
                (All-reverse _ r.double_star_leading h.counted_leading) q
          | inr e ↦ elim (or_else-some _ _ e) [
            | inl q ↦
                find_trailing-Justified E hs (reverse r.double_star_trailing) i words
                  (All-reverse _ r.double_star_trailing h.counted_trailing) q
            | inr e ↦ elim (or_else-some _ _ e) [
              | inl q ↦
                  find_internal-Justified E matches_single_internal_wildcard star hs
                    r.simple_internal_wildcards i
                    (λ ps ss. matches_single_internal_wildcard_sound ps ss hs) h.simple q
              | inr e ↦ elim (or_else-some _ _ e) [
                | inl q ↦
                    find_internal-Justified E matches_internal_double_star double_star hs
                      r.internal_double_star_wildcards i
                      (λ ps ss. matches_internal_double_star_sound ps ss hs) h.internal q
                | inr e ↦ elim (or_else-some _ _ e) [
                  | inl q ↦
                      let (ps, at, m) = lookup_from-At hs r.multi_star_trie q in
                      (ps, h.trie ps i at, inr m)
                  | inr e ↦ elim (or_else-some _ _ e) [
                    | inl q ↦ find_complex-Justified E hs r.complex_patterns i h.complex q
                    | inr e ↦ elim (or_else-some _ _ e) [
                      | inl q ↦
                          find_edge_leading-Justified E host r.leading_wildcards i h.leading
                            (unless_empty-some r.leading_wildcards _ q)
                      | inr e ↦ elim (or_else-some _ _ e) [
                        | inl q ↦
                            find_edge_trailing-Justified E host r.trailing_wildcards i h.trailing
                              (unless_empty-some r.trailing_wildcards _ q)
                        | inr q ↦ catch_all-Justified q
                      ]
                    ]
                  ]
                ]
              ]
            ]
          ]
        ]
      ]
