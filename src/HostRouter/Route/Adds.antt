-- ===== src/HostRouter/Route/Adds.antt =====
-- Each store of the table keeps what it holds when an entry is added to it.
use scety.Prelude.{
  ℕ, ◌+◌, ◌≡◌, subst, ◌⊎◌, inl, inr, not, ◌&&◌, some, List, [], ◌∷◌, ◌++◌, ltb, ◌==◌, if_cases,
  option_cases, take, drop, All, count, any, All-append, Option-cases, ==_iff,
}
use scety.Text.{Text, text_eq, split}
use scety.Map
use scety.Map.{Map, get-insert_cases}
use scety.HostRouter.Labels.{star, double_star}
use scety.HostRouter.Trie
use scety.HostRouter.Trie.Paths.{At, At-insert, not-At-new}
use scety.HostRouter.Table.{
  dot, CountMap, InternalPattern, HostRouter, new, insert_counted, inner_position, push_complex,
  add_rest, add_catch_all,
}
use scety.HostRouter.Route.Held.{Known, Counted, Holds}
use scety.HostRouter.Route.Parts.{inner_position-split}

-- A new table holds nothing.
pub new-Holds : (E : List Text → ℕ → Type 0) → Holds E new
new-Holds E = record {
  exact = λ p i e. absurd (unfold Map.get in cc);
  leading = λ p i e. absurd (unfold Map.get in cc);
  trailing = λ p i e. absurd (unfold Map.get in cc);
  counted_leading = tt;
  counted_trailing = tt;
  simple = tt;
  internal = tt;
  trie = λ ps i a. absurd (not-At-new a);
  complex = tt;
  catch = λ i e. absurd (cc);
}

module _ (E : List Text → ℕ → Type 0) (index : ℕ) (r : HostRouter) (h : Holds E r) where
  -- A map of texts that stand for labels, with one more.
  insert-held :
      (shape : Text → List Text) (k : Text) (m : Map ℕ)
      → ((p : Text) (i : ℕ) → Map.get p m ≡ some i → E (shape p) i)
      → E (shape k) index
      → (p : Text) (i : ℕ) → Map.get p (Map.insert k index m) ≡ some i
      → E (shape p) i
  insert-held shape k m held entry p i e = elim (get-insert_cases k p index m e) [
    | inl (same, value) ↦ subst (E (shape p)) value (subst (λ t. E (shape t) index) same entry)
    | inr old ↦ held p i old
  ]

  pub add_exact-Holds :
      (p : Text)
      → E (split dot p) index
      → Holds E (record r { exact_matches = Map.insert p index r.exact_matches })
  add_exact-Holds p entry =
      let held = insert-held (split dot) p r.exact_matches h.exact entry in assumption held

  pub add_leading-Holds :
      (p : Text)
      → E (star ∷ split dot p) index
      → Holds E (record r { leading_wildcards = Map.insert p index r.leading_wildcards })
  add_leading-Holds p entry =
      let held = insert-held (λ k. star ∷ split dot k) p r.leading_wildcards h.leading entry in
      assumption held

  pub add_trailing-Holds :
      (p : Text)
      → E (split dot p ++ star ∷ []) index
      → Holds E (record r { trailing_wildcards = Map.insert p index r.trailing_wildcards })
  add_trailing-Holds p entry =
      let held =
        insert-held (λ k. split dot k ++ star ∷ []) p r.trailing_wildcards h.trailing entry in
      assumption held

  pub add_catch_all-Holds :
      E (star ∷ []) index ⊎ E (double_star ∷ []) index → Holds E (add_catch_all index r)
  unfolding add_catch_all
  add_catch_all-Holds entry = elim (Option-cases r.catch_all) [
    | inl free ↦
        rw (free, add_catch_all)
          (let held : (i : ℕ) → some index ≡ some i → E (star ∷ []) i ⊎ E (double_star ∷ []) i =
              λ i e. subst (λ j. E (star ∷ []) j ⊎ E (double_star ∷ []) j) (cc) entry in
            assumption held)
    | inr (i, taken) ↦ rw (taken, add_catch_all) h
  ]

  pub push_complex-Holds : (ls : List Text) → E ls index → Holds E (push_complex ls index r)
  unfolding push_complex
  push_complex-Holds ls entry =
      let held =
        All-append (λ (e : List Text × ℕ). E e.0 e.1) r.complex_patterns ((ls, index) ∷ [])
          h.complex (entry, tt) in
      assumption held

  add_trie-Holds :
      (ls : List Text)
      → E ls index
      → Holds E (record r { multi_star_trie = Trie.insert ls index r.multi_star_trie })
  add_trie-Holds ls entry = assumption held
    where
      held : (ps : List Text) (i : ℕ) → At (Trie.insert ls index r.multi_star_trie) ps i → E ps i
      held ps i a = elim (At-insert ls index r.multi_star_trie ps i a) [
        | inl (path, value) ↦ rw (path, value) entry
        | inr old ↦ h.trie ps i old
      ]

  -- The branches that cut the labels at a wildcard.
  pub add_simple-Holds :
      (ls : List Text) (pos : ℕ)
      → E ls index
      → ls ≡ take pos ls ++ star ∷ drop (pos + 1) ls
      → Holds E (record r {
        simple_internal_wildcards =
            r.simple_internal_wildcards ++ (take pos ls, drop (pos + 1) ls, index) ∷ [];
      })
  add_simple-Holds ls pos entry cut =
      let held =
        All-append (λ (e : InternalPattern). E (e.0 ++ star ∷ e.1) e.2) r.simple_internal_wildcards
          ((take pos ls, drop (pos + 1) ls, index) ∷ []) h.simple
          (subst (λ k. E k index) cut entry, tt) in
      assumption held

  add_internal-Holds :
      (ls : List Text) (pos : ℕ)
      → E ls index
      → ls ≡ take pos ls ++ double_star ∷ drop (pos + 1) ls
      → Holds E (record r {
        internal_double_star_wildcards =
            r.internal_double_star_wildcards ++ (take pos ls, drop (pos + 1) ls, index) ∷ [];
      })
  add_internal-Holds ls pos entry cut =
      let held =
        All-append (λ (e : InternalPattern). E (e.0 ++ double_star ∷ e.1) e.2)
          r.internal_double_star_wildcards ((take pos ls, drop (pos + 1) ls, index) ∷ []) h.internal
          (subst (λ k. E k index) cut entry, tt) in
      assumption held

  pub add_rest-Holds : (ls : List Text) → E ls index → Holds E (add_rest ls index r)
  unfolding add_rest
  add_rest-Holds ls entry =
      if_cases (Holds E)
        (ltb 1 (count (λ l. text_eq l star) ls) && not (any (λ l. text_eq l double_star) ls)) _ _
        (λ _. add_trie-Holds ls entry)
        (λ _.
          if_cases (Holds E)
            (any (λ l. text_eq l double_star) ls && not (any (λ l. text_eq l star) ls)) _ _
            (λ _.
              option_cases (Holds E) (inner_position double_star ls) _ _
                (λ _. push_complex-Holds ls entry)
                (λ pos e.
                  add_internal-Holds ls pos entry (inner_position-split double_star ls pos e)))
            (λ _. push_complex-Holds ls entry))

-- A counted map with one more entry.
insert-Counted :
    (E : List Text → ℕ → Type 0) (n : ℕ) (known : Text) (index : ℕ) (m : Map ℕ)
    → Known E n known index
    → Counted E (n, m)
    → Counted E (n, Map.insert known index m)
insert-Counted E n known index m entry held k i e = elim (get-insert_cases known k index m e) [
  | inl (same, value) ↦ subst (Known E n k) value (subst (λ t. Known E n t index) same entry)
  | inr old ↦ held k i old
]

singleton-Counted :
    (E : List Text → ℕ → Type 0) (n : ℕ) (known : Text) (index : ℕ)
    → Known E n known index
    → Counted E (n, (known, index) ∷ [])
singleton-Counted E n known index entry k i e =
    insert-Counted E n known index [] entry (λ k i q. absurd (unfold Map.get in cc)) k i
      (unfold Map.insert in e)

pub insert_counted-Counted :
    (E : List Text → ℕ → Type 0) (n : ℕ) (known : Text) (index : ℕ) (counted : CountMap)
    → Known E n known index
    → All (Counted E) counted
    → All (Counted E) (insert_counted n known index counted)
unfolding insert_counted
insert_counted-Counted E n known index [] entry held = (singleton-Counted E n known index entry, tt)
insert_counted-Counted E n known index ((k, m) ∷ counted) entry held =
    if_cases (All (Counted E)) (n == k) _ _
      (λ same. (
        insert-Counted E k known index m
            (subst (λ j. Known E j known index) ((==_iff n k).0 same) entry) held.0,
        held.1,
      ))
      (λ _.
        if_cases (All (Counted E)) (ltb n k) _ _
          (λ _. (singleton-Counted E n known index entry, held))
          (λ _. (held.0, insert_counted-Counted E n known index counted entry held.1)))
