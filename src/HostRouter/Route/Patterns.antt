-- ===== src/HostRouter/Route/Patterns.antt =====
-- `add_pattern` keeps what the table holds, and adds the new pattern to it.
use scety.Prelude.{
  ℕ, ◌-◌, ◌≡◌, refl, ap, ◌∙◌, subst, ◌⊎◌, inl, inr, true, not, ◌&&◌, ◌||◌, List, [], ◌∷◌, ◌++◌,
  arith, ◌==◌, if_cases, option_cases, length, take, drop, All, count, all, any, length-drop,
  length-take-le, All-drop, All-take, &&_iff, ||_iff,
}
use scety.Text.{Text, codes, text_eq, text_eq_iff, split, join, starts_with, ends_with}
use scety.Text.Words.{Free, split-Free}
use scety.HostRouter.Labels.{star, double_star}
use scety.HostRouter.Table.{
  dot, HostRouter, insert_counted, contains_star, first_is_double_star, last_is_double_star,
  inner_position, add_labels, add_pattern,
}
use scety.HostRouter.Route.Held.{Holds}
use scety.HostRouter.Route.Parts.{
  split-leading, split-trailing, first_label, last_label, inner_position-split,
}
use scety.HostRouter.Route.Adds.{
  add_exact-Holds, add_leading-Holds, add_trailing-Holds, add_catch_all-Holds, push_complex-Holds,
  add_simple-Holds, add_rest-Holds, insert_counted-Counted,
}

split-star : split dot star ≡ star ∷ []
unfolding split
split-star = refl

split-double_star : split dot double_star ≡ double_star ∷ []
unfolding split
split-double_star = refl

module _ (E : List Text → ℕ → Type 0) (index : ℕ) (r : HostRouter) (h : Holds E r) where
  add_counted_leading-Holds :
      (ls : List Text)
      → All (Free dot) ls
      → E (double_star ∷ ls) index
      → Holds E (record r {
        double_star_leading = insert_counted (length ls) (join dot ls) index r.double_star_leading;
      })
  add_counted_leading-Holds ls free entry =
      let held =
        insert_counted-Counted (λ ks. E (double_star ∷ ks)) (length ls) (join dot ls) index
          r.double_star_leading (ls, refl, refl, free, entry) h.counted_leading in
      assumption held

  add_counted_trailing-Holds :
      (ls : List Text)
      → All (Free dot) ls
      → E (ls ++ double_star ∷ []) index
      → Holds E (record r {
        double_star_trailing =
            insert_counted (length ls) (join dot ls) index r.double_star_trailing;
      })
  add_counted_trailing-Holds ls free entry =
      let held =
        insert_counted-Counted (λ ks. E (ks ++ double_star ∷ [])) (length ls) (join dot ls) index
          r.double_star_trailing (ls, refl, refl, free, entry) h.counted_trailing in
      assumption held

  add_labels-Holds :
      (ls : List Text) → All (Free dot) ls → E ls index → Holds E (add_labels ls index r)
  unfolding add_labels
  add_labels-Holds ls free entry =
      if_cases (Holds E) (first_is_double_star ls && all (λ l. not (contains_star l)) (drop 1 ls)) _
        _ (λ t. leading (ground arith))
        (λ _.
          if_cases (Holds E)
            (last_is_double_star ls && all (λ l. not (contains_star l)) (take (length ls - 1) ls)) _
            _ (λ t. trailing (ground arith))
            (λ _.
              if_cases (Holds E)
                (any (λ l. text_eq l double_star) ls && any (λ l. text_eq l star) ls) _ _
                (λ _. push_complex-Holds E index r h ls entry)
                (λ _.
                  if_cases (Holds E)
                    (count (λ l. text_eq l star) ls == 1
                      && not (any (λ l. text_eq l double_star) ls))
                    _ _
                    (λ _.
                      option_cases (Holds E) (inner_position star ls) _ _
                        (λ _. add_rest-Holds E index r h ls entry)
                        (λ pos e.
                          add_simple-Holds E index r h ls pos entry
                            (inner_position-split star ls pos e)))
                    (λ _. add_rest-Holds E index r h ls entry))))
    where
      leading :
          first_is_double_star ls ≡ true
          → Holds E (record r {
            double_star_leading =
                insert_counted (length ls - 1) (join dot (drop 1 ls)) index r.double_star_leading;
          })
      leading t =
          let n : length (drop 1 ls) ≡ length ls - 1 = length-drop 1 ls in
          subst
            (λ k. Holds E (record r {
              double_star_leading =
                  insert_counted k (join dot (drop 1 ls)) index r.double_star_leading;
            }))
            n
            (add_counted_leading-Holds (drop 1 ls) (All-drop (Free dot) 1 ls free)
              (subst (λ k. E k index) (first_label ls t) entry))

      trailing :
          last_is_double_star ls ≡ true
          → Holds E (record r {
            double_star_trailing =
                insert_counted
                  (length ls - 1)
                  (join dot (take (length ls - 1) ls))
                  index
                  r.double_star_trailing;
          })
      trailing t =
          let n : length (take (length ls - 1) ls) ≡ length ls - 1 =
            length-take-le (length ls - 1) ls (omega arith) in
          subst
            (λ k. Holds E (record r {
              double_star_trailing =
                  insert_counted k (join dot (take (length ls - 1) ls)) index
                    r.double_star_trailing;
            }))
            n
            (add_counted_trailing-Holds (take (length ls - 1) ls)
              (All-take (Free dot) (length ls - 1) ls free)
              (subst (λ k. E k index) (last_label ls t) entry))

  -- Adding a pattern to a table that holds only what was added, keeps it so.
  pub add_pattern-Holds :
      (pattern : Text) → E (split dot pattern) index → Holds E (add_pattern pattern index r)
  unfolding add_pattern
  add_pattern-Holds pattern entry =
      if_cases (Holds E) (text_eq pattern star || text_eq pattern double_star) _ _
        (λ t. add_catch_all-Holds E index r h (lone pattern entry ((||_iff _ _).0 t)))
        (λ _.
          if_cases (Holds E) (count (λ c. c == b'*') pattern == 0) _ _
            (λ _. add_exact-Holds E index r h pattern entry)
            (λ _.
              if_cases (Holds E)
                (count (λ c. c == b'*') pattern == 1 && starts_with (codes "*.") pattern) _ _
                (λ t.
                  add_leading-Holds E index r h (drop 2 pattern)
                    (subst (λ k. E k index) (split-leading pattern ((&&_iff _ _).0 t).1) entry))
                (λ _.
                  if_cases (Holds E)
                    (count (λ c. c == b'*') pattern == 1 && ends_with (codes ".*") pattern) _ _
                    (λ t.
                      add_trailing-Holds E index r h (take (length pattern - 2) pattern) (
                        subst (λ k. E k index) (split-trailing pattern ((&&_iff _ _).0 t).1) entry))
                    (λ _. add_labels-Holds (split dot pattern) (split-Free dot pattern) entry))))
    where
      lone :
          (p : Text)
          → E (split dot p) index
          → (text_eq p star ≡ true) ⊎ (text_eq p double_star ≡ true)
          → E (star ∷ []) index ⊎ E (double_star ∷ []) index
      lone p e (inl t) =
          inl (subst (λ q. E q index) (ap (split dot) ((text_eq_iff p star).0 t) ∙ split-star) e)
      lone p e (inr t) = inr (
          subst (λ q. E q index)
            (ap (split dot) ((text_eq_iff p double_star).0 t) ∙ split-double_star) e)
