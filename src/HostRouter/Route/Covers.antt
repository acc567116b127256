-- ===== src/HostRouter/Route/Covers.antt =====
-- A pattern that is stored in one of the maps of a table is found there by each host that it serves.
use scety.Prelude.{
  ℕ, ◌+◌, ◌-◌, ◌≡◌, refl, sym, ap, subst, ◌∙◌, inl, inr, List, [], ◌∷◌, ◌++◌, arith, ltb, ◌==◌,
  ==_iff, Found, length, take, Any, here, there, All, if_cases, Option-cases, length-append,
  take-append, drop-append,
}
use scety.Text.{Text, split, split_once, rsplit_once, join}
use scety.Text.Words.{
  split-ne-nil, split_injective, split_once-none, split_once-some, rsplit_once-none,
  rsplit_once-some,
}
use scety.Map
use scety.Map.{Map, get-insert_self}
use scety.HostRouter.Labels.{star, double_star, Matches}
use scety.HostRouter.Literal.{
  Literal, Matches-Literal, Matches-Literal_prefix, Matches-star, Matches-double_star_inv,
}
use scety.HostRouter.Table.{dot, CountMap, insert_counted, find_edge_leading, find_edge_trailing}
use scety.HostRouter.Route.Grows.{last_labels, LeadingHit, TrailingHit}

Found-insert : (k : Text) (i : ℕ) (m : Map ℕ) → Found (Map.get k (Map.insert k i m))
Found-insert k i m = (i, get-insert_self k i m)

-- A text without wildcards is matched by itself alone.
pub exact-Found :
    (p host : Text) (i : ℕ) (m : Map ℕ)
    → All Literal (split dot p)
    → Matches (split dot p) (split dot host)
    → Found (Map.get host (Map.insert p i m))
exact-Found p host i m literal d =
    subst (λ h. Found (Map.get h (Map.insert p i m)))
      (sym (split_injective dot host p (Matches-Literal (split dot p) (split dot host) literal d)))
      (Found-insert p i m)

pub leading-Found :
    (p host : Text) (i : ℕ) (m : Map ℕ)
    → All Literal (split dot p)
    → Matches (star ∷ split dot p) (split dot host)
    → Found (find_edge_leading host (Map.insert p i m))
unfolding find_edge_leading
leading-Found p host i m literal d =
    let (h, e) = Matches-star (split dot p) (split dot host) literal d in
    elim (Option-cases (split_once dot host)) [
      | inl bare ↦ absurd (split-ne-nil dot p (cc (e, split_once-none dot host bare)))
      | inr ((a, b), cut) ↦
          let same : b ≡ p = split_injective dot b p (cc (e, split_once-some dot host a b cut)) in
          rw (cut, find_edge_leading)
            (subst (λ k. Found (Map.get k (Map.insert p i m))) (sym same) (Found-insert p i m))
    ]

-- Lists with one item behind them.
append_last_inj : (xs ys : List Text) (x y : Text) → xs ++ x ∷ [] ≡ ys ++ y ∷ [] → xs ≡ ys
append_last_inj xs ys x y e =
    let n : length xs ≡ length ys =
      omega (arith, ap length e, length-append {0} xs (x ∷ []), length-append {0} ys (y ∷ [])) in
    sym (take-append xs (x ∷ []))
    ∙ ap (take (length xs)) e
    ∙ ap (λ k. take k (ys ++ y ∷ [])) n
    ∙ take-append ys (y ∷ [])

append_last-length : (xs : List Text) (x y : Text) → xs ++ x ∷ [] ≡ y ∷ [] → xs ≡ []
append_last-length [] x y e = refl
append_last-length (z ∷ xs) x y e =
    absurd (omega (arith, ap length e, length-append {0} xs (x ∷ [])))

pub trailing-Found :
    (p host : Text) (i : ℕ) (m : Map ℕ)
    → All Literal (split dot p)
    → Matches (split dot p ++ star ∷ []) (split dot host)
    → Found (find_edge_trailing host (Map.insert p i m))
unfolding find_edge_trailing
trailing-Found p host i m literal d =
    let (gs, e, d') = Matches-Literal_prefix (split dot p) (star ∷ []) (split dot host) literal d in
    let (h, g) = Matches-star [] gs tt d' in
    let whole : split dot host ≡ split dot p ++ h ∷ [] = e ∙ ap (λ t. split dot p ++ t) g in
    elim (Option-cases (rsplit_once dot host)) [
      | inl bare ↦ absurd (
          split-ne-nil dot p
            (append_last-length (split dot p) h host (sym whole ∙ rsplit_once-none dot host bare)))
      | inr ((a, b), cut) ↦
          let same : a ≡ p = split_injective dot a p (
            append_last_inj (split dot a) (split dot p) b h
              (sym (rsplit_once-some dot host a b cut) ∙ whole)) in
          rw (cut, find_edge_trailing)
            (subst (λ k. Found (Map.get k (Map.insert p i m))) (sym same) (Found-insert p i m))
    ]

-- What is put in a counted map is in it.
insert_counted-here :
    (P : ℕ × Map ℕ → Type 0) (n : ℕ) (known : Text) (i : ℕ) (c : CountMap)
    → ((m : Map ℕ) → P (n, Map.insert known i m))
    → Any P (insert_counted n known i c)
unfolding insert_counted
insert_counted-here P n known i [] p = here (unfold Map.insert in p [])
insert_counted-here P n known i ((k, m) ∷ c) p =
    if_cases (Any P) (n == k) _ _
      (λ e. here (subst (λ j. P (j, Map.insert known i m)) ((==_iff n k).0 e) (p m)))
      (λ _.
        if_cases (Any P) (ltb n k) _ _ (λ _. here (unfold Map.insert in p []))
          (λ _. there (insert_counted-here P n known i c p)))

pub counted_leading-Any :
    (ls hs : List Text) (i : ℕ) (c : CountMap)
    → All Literal ls
    → Matches (double_star ∷ ls) hs
    → Any (LeadingHit hs) (insert_counted (length ls) (join dot ls) i c)
counted_leading-Any ls hs i c literal d =
    let (mid, e) = Matches-double_star_inv ls hs literal refl d in
    let size : length hs ≡ length mid + length ls = ap length e ∙ length-append mid ls in
    let n : length hs - length ls ≡ length mid = omega arith in
    let same : last_labels (length ls) hs ≡ ls = rw (n, e) (drop-append mid ls) in
    insert_counted-here (LeadingHit hs) (length ls) (join dot ls) i c (λ m. (
      omega arith,
      subst (λ k. Found (Map.get (join dot k) (Map.insert (join dot ls) i m))) (sym same)
          (Found-insert (join dot ls) i m),
    ))

pub counted_trailing-Any :
    (ls hs : List Text) (i : ℕ) (c : CountMap)
    → All Literal ls
    → Matches (ls ++ double_star ∷ []) hs
    → Any (TrailingHit hs) (insert_counted (length ls) (join dot ls) i c)
counted_trailing-Any ls hs i c literal d =
    let (gs, e, _) = Matches-Literal_prefix ls (double_star ∷ []) hs literal d in
    let size : length hs ≡ length ls + length gs = ap length e ∙ length-append ls gs in
    let same : take (length ls) hs ≡ ls = rw e (take-append ls gs) in
    insert_counted-here (TrailingHit hs) (length ls) (join dot ls) i c (λ m. (
      omega arith,
      subst (λ k. Found (Map.get (join dot k) (Map.insert (join dot ls) i m))) (sym same)
          (Found-insert (join dot ls) i m),
    ))
