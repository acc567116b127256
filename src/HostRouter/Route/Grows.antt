-- ===== src/HostRouter/Route/Grows.antt =====
-- Where a table finds a host, and that a table with more in it finds the host still.
use scety.Prelude.{
  ℕ, ◌-◌, ◌≤◌, ◌≡◌, refl, inl, inr, Bool, true, Option, none, some, List, [], ◌∷◌, reverse, arith,
  leb, or_else, Found, length, take, drop, Any, here, there, Option-cases, Any-append_left,
  Any-append_right, if_cases,
}
use mathlib.Core.List.{reverse-cons}
use scety.Text.{Text, split, split_once, rsplit_once, join}
use scety.Map
use scety.Map.{Map}
use scety.HostRouter.Dp.{dp_host_matches}
use scety.HostRouter.Internal.{matches_single_internal_wildcard, matches_internal_double_star}
use scety.HostRouter.Trie
use scety.HostRouter.Trie.{TrieNode}
use scety.HostRouter.Trie.Finds.{Found-or_else_left, Found-or_else_right}
use scety.HostRouter.Table.{
  dot, CountMap, InternalPattern, HostRouter, unless_empty, find_leading, find_trailing,
  find_internal, find_complex, find_edge_leading, find_edge_trailing, matches,
}

-- The labels that a counted map is asked for.
abbrev pub last_labels : ℕ → List Text → List Text
last_labels n hs = drop (length hs - n) hs

abbrev pub LeadingHit : List Text → ℕ × Map ℕ → Type 0
LeadingHit hs e = (e.0 ≤ length hs) × Found (Map.get (join dot (last_labels e.0 hs)) e.1)

abbrev pub TrailingHit : List Text → ℕ × Map ℕ → Type 0
TrailingHit hs e = (e.0 ≤ length hs) × Found (Map.get (join dot (take e.0 hs)) e.1)

-- The search that finds the host.
pub data Hit (r : HostRouter) (host : Text) : Type 0 where
  by_exact : Found (Map.get host r.exact_matches) → Hit r host
  by_leading : Any (LeadingHit (split dot host)) r.double_star_leading → Hit r host
  by_trailing : Any (TrailingHit (split dot host)) r.double_star_trailing → Hit r host
  by_simple :
      Any
        (λ (e : InternalPattern). matches_single_internal_wildcard e.0 e.1 (split dot host) ≡ true)
        r.simple_internal_wildcards
      → Hit r host
  by_internal :
      Any
        (λ (e : InternalPattern). matches_internal_double_star e.0 e.1 (split dot host) ≡ true)
        r.internal_double_star_wildcards
      → Hit r host
  by_trie : Found (Trie.lookup_from (split dot host) r.multi_star_trie) → Hit r host
  by_complex :
      Any (λ (e : List Text × ℕ). dp_host_matches e.0 (split dot host) ≡ true) r.complex_patterns
      → Hit r host
  by_edge_leading : Found (find_edge_leading host r.leading_wildcards) → Hit r host
  by_edge_trailing : Found (find_edge_trailing host r.trailing_wildcards) → Hit r host
  by_catch_all : Found r.catch_all → Hit r host

Found-unless_empty :
    (m : Map ℕ) (o : Option ℕ) → (m ≡ [] → o ≡ none) → Found o → Found (unless_empty m o)
Found-unless_empty [] o h (v, e) = absurd (cc (h refl))
Found-unless_empty (x ∷ m) o h f = f

get-nil : (k : Text) (m : Map ℕ) → m ≡ [] → Map.get k m ≡ none
unfolding Map.get
get-nil k [] e = refl
get-nil k (x ∷ m) e = absurd (cc)

find_edge_leading-nil : (host : Text) (m : Map ℕ) → m ≡ [] → find_edge_leading host m ≡ none
unfolding find_edge_leading
find_edge_leading-nil host m e = elim (Option-cases (split_once dot host)) [
  | inl bare ↦ rw (bare, find_edge_leading)
  | inr (p, cut) ↦ rw (cut, find_edge_leading) (get-nil p.1 m e)
]

find_edge_trailing-nil : (host : Text) (m : Map ℕ) → m ≡ [] → find_edge_trailing host m ≡ none
unfolding find_edge_trailing
find_edge_trailing-nil host m e = elim (Option-cases (rsplit_once dot host)) [
  | inl bare ↦ rw (bare, find_edge_trailing)
  | inr (p, cut) ↦ rw (cut, find_edge_trailing) (get-nil p.0 m e)
]

Any-reverse {ℓ κ} : {A : Type ℓ} (P : A → Type κ) (xs : List A) → Any P xs → Any P (reverse xs)
Any-reverse P [] a = elim a [ ]
Any-reverse P (x ∷ xs) (here p) =
    rw (reverse-cons x xs) (Any-append_right P (reverse xs) (x ∷ []) (here p))
Any-reverse P (x ∷ xs) (there a) =
    rw (reverse-cons x xs) (Any-append_left P (reverse xs) (x ∷ []) (Any-reverse P xs a))

find_leading-Found :
    (hs : List Text) (counted : CountMap)
    → Any (LeadingHit hs) counted
    → Found (find_leading hs counted)
unfolding find_leading
find_leading-Found hs [] a = elim a [ ]
find_leading-Found hs ((n, m) ∷ counted) (here (fits, found)) =
    Found-or_else_left _ _
      (if_cases Found (leb n (length hs)) _ _ (λ _. found) (λ q. absurd (ground arith)))
find_leading-Found hs ((n, m) ∷ counted) (there a) =
    Found-or_else_right _ _ (find_leading-Found hs counted a)

find_trailing-Found :
    (hs : List Text) (counted : CountMap)
    → Any (TrailingHit hs) counted
    → Found (find_trailing hs counted)
unfolding find_trailing
find_trailing-Found hs [] a = elim a [ ]
find_trailing-Found hs ((n, m) ∷ counted) (here (fits, found)) =
    Found-or_else_left _ _
      (if_cases Found (leb n (length hs)) _ _ (λ _. found) (λ q. absurd (ground arith)))
find_trailing-Found hs ((n, m) ∷ counted) (there a) =
    Found-or_else_right _ _ (find_trailing-Found hs counted a)

find_internal-Found :
    (test : List Text → List Text → List Text → Bool) (hs : List Text)
    (patterns : List InternalPattern)
    → Any (λ (e : InternalPattern). test e.0 e.1 hs ≡ true) patterns
    → Found (find_internal test hs patterns)
unfolding find_internal
find_internal-Found test hs [] a = elim a [ ]
find_internal-Found test hs ((p, s, i) ∷ patterns) (here e) = rw e (i, refl)
find_internal-Found test hs ((p, s, i) ∷ patterns) (there a) =
    if_cases Found (test p s hs) _ _ (λ _. (i, refl)) (λ _. find_internal-Found test hs patterns a)

find_complex-Found :
    (hs : List Text) (patterns : List (List Text × ℕ))
    → Any (λ (e : List Text × ℕ). dp_host_matches e.0 hs ≡ true) patterns
    → Found (find_complex hs patterns)
unfolding find_complex
find_complex-Found hs [] a = elim a [ ]
find_complex-Found hs ((p, i) ∷ patterns) (here e) = rw e (i, refl)
find_complex-Found hs ((p, i) ∷ patterns) (there a) =
    if_cases Found (dp_host_matches p hs) _ _ (λ _. (i, refl))
      (λ _. find_complex-Found hs patterns a)

-- The first value of a list of searches.
abbrev first : List (Option ℕ) → Option ℕ
first [] = none
first (o ∷ os) = or_else o (first os)

first-Found : (os : List (Option ℕ)) → Any Found os → Found (first os)
first-Found [] a = elim a [ ]
first-Found (o ∷ os) (here f) = Found-or_else_left o (first os) f
first-Found (o ∷ os) (there a) = Found-or_else_right o (first os) (first-Found os a)

or_else-none : (o : Option ℕ) → or_else o none ≡ o
or_else-none none = refl
or_else-none (some a) = refl

-- The searches of `matches`, in order.
abbrev searches : HostRouter → Text → List (Option ℕ)
searches r host =
    unless_empty r.exact_matches (Map.get host r.exact_matches)
    ∷ find_leading (split dot host) (reverse r.double_star_leading)
    ∷ find_trailing (split dot host) (reverse r.double_star_trailing)
    ∷ find_internal matches_single_internal_wildcard (split dot host) r.simple_internal_wildcards
    ∷ find_internal matches_internal_double_star (split dot host) r.internal_double_star_wildcards
    ∷ Trie.lookup_from (split dot host) r.multi_star_trie
    ∷ find_complex (split dot host) r.complex_patterns
    ∷ unless_empty r.leading_wildcards (find_edge_leading host r.leading_wildcards)
    ∷ unless_empty r.trailing_wildcards (find_edge_trailing host r.trailing_wildcards)
    ∷ r.catch_all
    ∷ []

matches-first : (r : HostRouter) (host : Text) → matches r host ≡ first (searches r host)
unfolding matches
matches-first r host = rw (or_else-none r.catch_all) refl

Hit-searches : (r : HostRouter) (host : Text) → Hit r host → Any Found (searches r host)
Hit-searches r host (by_exact f) = here (Found-unless_empty _ _ (get-nil host r.exact_matches) f)
Hit-searches r host (by_leading a) = there (
    here (
      find_leading-Found (split dot host) _
        (Any-reverse (LeadingHit (split dot host)) r.double_star_leading a)))
Hit-searches r host (by_trailing a) = there (
    there (
      here (
        find_trailing-Found (split dot host) _
          (Any-reverse (TrailingHit (split dot host)) r.double_star_trailing a))))
Hit-searches r host (by_simple a) = there (
    there
      (there (here (find_internal-Found matches_single_internal_wildcard (split dot host) _ a))))
Hit-searches r host (by_internal a) = there (
    there (
      there (there (here (find_internal-Found matches_internal_double_star (split dot host) _ a)))))
Hit-searches r host (by_trie f) = there (there (there (there (there (here (f))))))
Hit-searches r host (by_complex a) =
    there (there (there (there (there (there (here (find_complex-Found (split dot host) _ a)))))))
Hit-searches r host (by_edge_leading f) = there (
    there (
      there (
        there (
          there (
            there (
              there (
                here
                  (Found-unless_empty _ _ (find_edge_leading-nil host r.leading_wildcards) f))))))))
Hit-searches r host (by_edge_trailing f) = there (
    there (
      there (
        there (
          there (
            there (
              there (
                there (
                  here (
                    Found-unless_empty _ _ (find_edge_trailing-nil host r.trailing_wildcards)
                      f)))))))))
Hit-searches r host (by_catch_all f) =
    there (there (there (there (there (there (there (there (there (here (f))))))))))

-- `matches` answers where one of its searches does.
pub Hit-matches : (r : HostRouter) (host : Text) → Hit r host → Found (matches r host)
Hit-matches r host h =
    rw (matches-first r host) (first-Found (searches r host) (Hit-searches r host h))
