-- ===== src/HostRouter/Route/Stored.antt =====
-- A host that the labels of a supported pattern match is found once the labels are stored.
use scety.Prelude.{
  ℕ, ◌+◌, ◌-◌, ◌≤◌, ◌≡◌, refl, subst, inl, inr, true, false, not, ◌&&◌, some, List, [], ◌∷◌, ◌++◌,
  arith, ltb, ◌==◌, &&_iff, length, take, drop, all, Any, here, Any-append_right, if_cases,
  option_cases, length-drop, length-take-le,
}
use scety.Text.{Text, split, join}
use scety.HostRouter.Labels.{star, double_star, Matches}
use scety.HostRouter.Dp.{dp_host_matches-Matches}
use scety.HostRouter.Internal.Laws.{
  matches_single_internal_wildcard-Matches, matches_internal_double_star-Matches,
}
use scety.HostRouter.Trie.Finds.{lookup_from-insert_self}
use scety.HostRouter.Table.{
  dot, HostRouter, insert_counted, contains_star, first_is_double_star, last_is_double_star,
  inner_position, push_complex, add_rest, add_labels, add_catch_all,
}
use scety.HostRouter.Route.Parts.{first_label, last_label, inner_position-split}
use scety.HostRouter.Route.Plain.{all-IsPlain, All-IsPlain-Literal}
use scety.HostRouter.Route.Grows.{
  LeadingHit, TrailingHit, Hit, by_leading, by_trailing, by_simple, by_internal, by_trie,
  by_complex, by_catch_all,
}
use scety.HostRouter.Route.Covers.{counted_leading-Any, counted_trailing-Any}
use scety.HostRouter.Route.Wildcards.{
  has, times, Supported, Literal-all, NotDoubleStar-all, around-Literal, first-not-inner,
}

module _ (index : ℕ) (r : HostRouter) (host : Text) where
  pub add_catch_all-Hit : Hit (add_catch_all index r) host
  unfolding add_catch_all
  add_catch_all-Hit =
      option_cases (λ s. Hit s host) r.catch_all (record r { catch_all = some index }) (λ _. r)
        (λ _. by_catch_all (index, refl)) (λ i e. by_catch_all (i, e))

  push_complex-Hit :
      (ls : List Text) → Matches ls (split dot host) → Hit (push_complex ls index r) host
  unfolding push_complex
  push_complex-Hit ls d = by_complex (
      Any-append_right _ r.complex_patterns ((ls, index) ∷ [])
        (here ((dp_host_matches-Matches ls (split dot host)).1 d)))

  simple-Hit :
      (ls : List Text) (pos : ℕ)
      → times star ls ≤ 1
      → has double_star ls ≡ false
      → ls ≡ take pos ls ++ star ∷ drop (pos + 1) ls
      → Matches ls (split dot host)
      → Hit
          (record r {
            simple_internal_wildcards =
                r.simple_internal_wildcards ++ (take pos ls, drop (pos + 1) ls, index) ∷ [];
          })
          host
  simple-Hit ls pos single no_double cut d =
      let ps : List Text = take pos ls in
      let qs : List Text = drop (pos + 1) ls in
      let ((ps_star, ps_double), (qs_star, qs_double)) =
        around-Literal star double_star ps qs (subst (λ k. times star k ≤ 1) cut single)
          (subst (λ k. has double_star k ≡ false) cut no_double) in
      by_simple (
        Any-append_right _ r.simple_internal_wildcards ((ps, qs, index) ∷ []) (
          here (
            (matches_single_internal_wildcard-Matches ps qs (split dot host)
                (Literal-all ps ps_star ps_double) (Literal-all qs qs_star qs_double)).1
              (subst (λ k. Matches k (split dot host)) cut d))))

  internal-Hit :
      (ls : List Text) (pos : ℕ)
      → times double_star ls ≤ 1
      → has star ls ≡ false
      → ls ≡ take pos ls ++ double_star ∷ drop (pos + 1) ls
      → Matches ls (split dot host)
      → Hit
          (record r {
            internal_double_star_wildcards =
                r.internal_double_star_wildcards ++ (take pos ls, drop (pos + 1) ls, index) ∷ [];
          })
          host
  internal-Hit ls pos single no_star cut d =
      let ps : List Text = take pos ls in
      let qs : List Text = drop (pos + 1) ls in
      let ((ps_double, ps_star), (qs_double, qs_star)) =
        around-Literal double_star star ps qs (subst (λ k. times double_star k ≤ 1) cut single)
          (subst (λ k. has star k ≡ false) cut no_star) in
      by_internal (
        Any-append_right _ r.internal_double_star_wildcards ((ps, qs, index) ∷ []) (
          here (
            (matches_internal_double_star-Matches ps qs (split dot host)
                (Literal-all ps ps_star ps_double) (Literal-all qs qs_star qs_double)).1
              (subst (λ k. Matches k (split dot host)) cut d))))

  -- The place of a `**` that the table takes for an inner one is the place of the only one.
  only_double_star :
      (ls : List Text) (pos : ℕ)
      → Supported ls
      → has star ls ≡ false
      → inner_position double_star ls ≡ some pos
      → times double_star ls ≤ 1
  only_double_star ls pos (inl some_star) no_star e = absurd (ground (arith, some_star, no_star))
  only_double_star ls pos (inr (inl single)) no_star e = single
  only_double_star ls pos (inr (inr in_front)) no_star e =
      absurd (first-not-inner ls pos in_front e)

  add_rest-Hit :
      (ls : List Text) → Supported ls → Matches ls (split dot host) → Hit (add_rest ls index r) host
  unfolding add_rest
  add_rest-Hit ls supported d =
      if_cases (λ s. Hit s host) (ltb 1 (times star ls) && not (has double_star ls)) _ _
        (λ t. by_trie (
          lookup_from-insert_self index r.multi_star_trie (NotDoubleStar-all ls (ground (arith, t)))
            d))
        (λ _.
          if_cases (λ s. Hit s host) (has double_star ls && not (has star ls)) _ _
            (λ t.
              option_cases (λ s. Hit s host) (inner_position double_star ls) _ _
                (λ _. push_complex-Hit ls d)
                (λ pos e.
                  internal-Hit ls pos (only_double_star ls pos supported (ground (arith, t)) e)
                    (ground (arith, t)) (inner_position-split double_star ls pos e) d))
            (λ _. push_complex-Hit ls d))

  leading-Hit :
      (ls : List Text)
      → first_is_double_star ls ≡ true
      → all (λ l. not (contains_star l)) (drop 1 ls) ≡ true
      → Matches ls (split dot host)
      → Hit
          (record r {
            double_star_leading =
                insert_counted (length ls - 1) (join dot (drop 1 ls)) index r.double_star_leading;
          })
          host
  leading-Hit ls in_front plain d = by_leading (
      subst
        (λ n.
          Any (LeadingHit (split dot host))
            (insert_counted n (join dot (drop 1 ls)) index r.double_star_leading))
        (length-drop 1 ls)
        (counted_leading-Any (drop 1 ls) (split dot host) index r.double_star_leading
          (All-IsPlain-Literal (drop 1 ls) (all-IsPlain (drop 1 ls) plain))
          (subst (λ k. Matches k (split dot host)) (first_label ls in_front) d)))

  trailing-Hit :
      (ls : List Text)
      → last_is_double_star ls ≡ true
      → all (λ l. not (contains_star l)) (take (length ls - 1) ls) ≡ true
      → Matches ls (split dot host)
      → Hit
          (record r {
            double_star_trailing =
                insert_counted
                  (length ls - 1)
                  (join dot (take (length ls - 1) ls))
                  index
                  r.double_star_trailing;
          })
          host
  trailing-Hit ls behind plain d =
      let front : List Text = take (length ls - 1) ls in
      by_trailing (
        subst
          (λ n.
            Any (TrailingHit (split dot host))
              (insert_counted n (join dot front) index r.double_star_trailing))
          (length-take-le (length ls - 1) ls (omega arith))
          (counted_trailing-Any front (split dot host) index r.double_star_trailing
            (All-IsPlain-Literal front (all-IsPlain front plain))
            (subst (λ k. Matches k (split dot host)) (last_label ls behind) d)))

  pub add_labels-Hit :
      (ls : List Text)
      → Supported ls
      → Matches ls (split dot host)
      → Hit (add_labels ls index r) host
  unfolding add_labels
  add_labels-Hit ls supported d =
      if_cases (λ s. Hit s host)
        (first_is_double_star ls && all (λ l. not (contains_star l)) (drop 1 ls)) _ _
        (λ t. let (f, p) = (&&_iff _ _).0 t in leading-Hit ls f p d)
        (λ _.
          if_cases (λ s. Hit s host)
            (last_is_double_star ls && all (λ l. not (contains_star l)) (take (length ls - 1) ls)) _
            _ (λ t. let (f, p) = (&&_iff _ _).0 t in trailing-Hit ls f p d)
            (λ _.
              if_cases (λ s. Hit s host) (has double_star ls && has star ls) _ _
                (λ _. push_complex-Hit ls d)
                (λ _.
                  if_cases (λ s. Hit s host) (times star ls == 1 && not (has double_star ls)) _ _
                    (λ t.
                      option_cases (λ s. Hit s host) (inner_position star ls) _ _
                        (λ _. add_rest-Hit ls supported d)
                        (λ pos e.
                          simple-Hit ls pos (ground (arith, t)) (ground (arith, t))
                            (inner_position-split star ls pos e) d))
                    (λ _. add_rest-Hit ls supported d))))
