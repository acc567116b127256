-- ===== src/HostRouter/Route/Extends.antt =====
-- A pattern that is added takes no host away: each search of the larger table finds what it found.
use scety.Prelude.{
  ℕ, ◌+◌, ◌-◌, refl, inl, inr, not, ◌&&◌, ◌||◌, Option, some, List, [], ◌∷◌, ◌++◌, arith, ltb, ◌==◌,
  Found, length, take, drop, count, all, any, Any, here, there, Any-append_left, if_cases,
  option_cases, Option-cases,
}
use scety.Text.{Text, codes, text_eq, split, split_once, rsplit_once, join, starts_with, ends_with}
use scety.Map
use scety.Map.{Map, get-insert_keeps}
use scety.HostRouter.Labels.{star, double_star}
use scety.HostRouter.Trie
use scety.HostRouter.Trie.{TrieNode}
use scety.HostRouter.Trie.Finds.{lookup_from-insert_keeps}
use scety.HostRouter.Table.{
  dot, CountMap, InternalPattern, HostRouter, insert_counted, find_edge_leading, find_edge_trailing,
  contains_star, first_is_double_star, last_is_double_star, inner_position, push_complex, add_rest,
  add_labels, add_catch_all, add_pattern,
}
use scety.HostRouter.Route.Grows.{
  LeadingHit, TrailingHit, Hit, by_exact, by_leading, by_trailing, by_simple, by_internal, by_trie,
  by_complex, by_edge_leading, by_edge_trailing, by_catch_all,
}

-- One map has the keys of another.
abbrev KeepsKeys : Map ℕ → Map ℕ → Type 0
KeepsKeys m m' = (k : Text) → Found (Map.get k m) → Found (Map.get k m')

-- A counted map answers what another answers.
abbrev pub KeepsCounted : CountMap → CountMap → Type 0
KeepsCounted c c' =
    (hs : List Text)
    → (Any (LeadingHit hs) c → Any (LeadingHit hs) c')
      × (Any (TrailingHit hs) c → Any (TrailingHit hs) c')

abbrev KeepsItems : {A : Type 0} → List A → List A → Type 1
KeepsItems {A} xs ys = (P : A → Type 0) → Any P xs → Any P ys

pub record Extends (r r' : HostRouter) : Type 1 where
  pub exact : KeepsKeys r.exact_matches r'.exact_matches
  pub leading : KeepsKeys r.leading_wildcards r'.leading_wildcards
  pub trailing : KeepsKeys r.trailing_wildcards r'.trailing_wildcards
  pub counted_leading : KeepsCounted r.double_star_leading r'.double_star_leading
  pub counted_trailing : KeepsCounted r.double_star_trailing r'.double_star_trailing
  pub simple : KeepsItems r.simple_internal_wildcards r'.simple_internal_wildcards
  pub internal : KeepsItems r.internal_double_star_wildcards r'.internal_double_star_wildcards
  pub trie :
      (hs : List Text)
      → Found (Trie.lookup_from hs r.multi_star_trie)
      → Found (Trie.lookup_from hs r'.multi_star_trie)
  pub complex : KeepsItems r.complex_patterns r'.complex_patterns
  pub catch_all : Found r.catch_all → Found r'.catch_all

find_edge_leading-keeps :
    (host : Text) (m m' : Map ℕ)
    → KeepsKeys m m'
    → Found (find_edge_leading host m)
    → Found (find_edge_leading host m')
unfolding find_edge_leading
find_edge_leading-keeps host m m' keeps f = elim (Option-cases (split_once dot host)) [
  | inl bare ↦ absurd (ground (arith, bare, f.1))
  | inr (p, cut) ↦ rw (cut, find_edge_leading) (keeps p.1 (rw (cut, find_edge_leading) at f))
]

find_edge_trailing-keeps :
    (host : Text) (m m' : Map ℕ)
    → KeepsKeys m m'
    → Found (find_edge_trailing host m)
    → Found (find_edge_trailing host m')
unfolding find_edge_trailing
find_edge_trailing-keeps host m m' keeps f = elim (Option-cases (rsplit_once dot host)) [
  | inl bare ↦ absurd (ground (arith, bare, f.1))
  | inr (p, cut) ↦ rw (cut, find_edge_trailing) (keeps p.0 (rw (cut, find_edge_trailing) at f))
]

pub Hit-Extends : {r r' : HostRouter} (host : Text) → Extends r r' → Hit r host → Hit r' host
Hit-Extends host e (by_exact f) = by_exact (e.exact host f)
Hit-Extends host e (by_leading a) = by_leading ((e.counted_leading (split dot host)).0 a)
Hit-Extends host e (by_trailing a) = by_trailing ((e.counted_trailing (split dot host)).1 a)
Hit-Extends host e (by_simple a) = by_simple (e.simple _ a)
Hit-Extends host e (by_internal a) = by_internal (e.internal _ a)
Hit-Extends host e (by_trie f) = by_trie (e.trie (split dot host) f)
Hit-Extends host e (by_complex a) = by_complex (e.complex _ a)
Hit-Extends host e (by_edge_leading f) =
    by_edge_leading (find_edge_leading-keeps host _ _ e.leading f)
Hit-Extends host e (by_edge_trailing f) =
    by_edge_trailing (find_edge_trailing-keeps host _ _ e.trailing f)
Hit-Extends host e (by_catch_all f) = by_catch_all (e.catch_all f)

pub Extends-self : (r : HostRouter) → Extends r r
Extends-self r = record {
  exact = λ k f. f;
  leading = λ k f. f;
  trailing = λ k f. f;
  counted_leading = λ hs. (λ a. a, λ a. a);
  counted_trailing = λ hs. (λ a. a, λ a. a);
  simple = λ P a. a;
  internal = λ P a. a;
  trie = λ hs f. f;
  complex = λ P a. a;
  catch_all = λ f. f;
}

insert-KeepsKeys : (k : Text) (i : ℕ) (m : Map ℕ) → KeepsKeys m (Map.insert k i m)
insert-KeepsKeys k i m j (v, e) = get-insert_keeps k j i m e

append-KeepsItems : {A : Type 0} (xs ys : List A) → KeepsItems xs (xs ++ ys)
append-KeepsItems xs ys P a = Any-append_left P xs ys a

insert_counted-Any :
    (P : ℕ × Map ℕ → Type 0) (n : ℕ) (known : Text) (index : ℕ) (c : CountMap)
    → ((k : ℕ) (m : Map ℕ) → P (k, m) → P (k, Map.insert known index m))
    → Any P c
    → Any P (insert_counted n known index c)
unfolding insert_counted
insert_counted-Any P n known index [] stable a = elim a [ ]
insert_counted-Any P n known index ((k, m) ∷ c) stable (here p) =
    if_cases (Any P) (n == k) _ _ (λ _. here (stable k m p))
      (λ _. if_cases (Any P) (ltb n k) _ _ (λ _. there (here p)) (λ _. here p))
insert_counted-Any P n known index ((k, m) ∷ c) stable (there a) =
    if_cases (Any P) (n == k) _ _ (λ _. there a)
      (λ _.
        if_cases (Any P) (ltb n k) _ _ (λ _. there (there a))
          (λ _. there (insert_counted-Any P n known index c stable a)))

insert_counted-KeepsCounted :
    (n : ℕ) (known : Text) (index : ℕ) (c : CountMap)
    → KeepsCounted c (insert_counted n known index c)
insert_counted-KeepsCounted n known index c hs = (
  insert_counted-Any (LeadingHit hs) n known index c
      (λ k m p. (p.0, insert-KeepsKeys known index m _ p.1)),
  insert_counted-Any (TrailingHit hs) n known index c
      (λ k m p. (p.0, insert-KeepsKeys known index m _ p.1)),
)

Found-some : {o : Option ℕ} (i : ℕ) → Found o → Found (some i)
Found-some i f = (i, refl)

-- One store with more in it.
module _ (index : ℕ) (r : HostRouter) (e : Extends r r) where
  exact-Extends :
      (k : Text) → Extends r (record r { exact_matches = Map.insert k index r.exact_matches })
  exact-Extends k = let held = insert-KeepsKeys k index r.exact_matches in assumption held

  leading-Extends :
      (k : Text)
      → Extends r (record r { leading_wildcards = Map.insert k index r.leading_wildcards })
  leading-Extends k = let held = insert-KeepsKeys k index r.leading_wildcards in assumption held

  trailing-Extends :
      (k : Text)
      → Extends r (record r { trailing_wildcards = Map.insert k index r.trailing_wildcards })
  trailing-Extends k = let held = insert-KeepsKeys k index r.trailing_wildcards in assumption held

  counted_leading-Extends :
      (n : ℕ) (k : Text)
      → Extends r
          (record r { double_star_leading = insert_counted n k index r.double_star_leading })
  counted_leading-Extends n k =
      let held = insert_counted-KeepsCounted n k index r.double_star_leading in assumption held

  counted_trailing-Extends :
      (n : ℕ) (k : Text)
      → Extends r
          (record r { double_star_trailing = insert_counted n k index r.double_star_trailing })
  counted_trailing-Extends n k =
      let held = insert_counted-KeepsCounted n k index r.double_star_trailing in assumption held

  simple-Extends :
      (x : InternalPattern)
      → Extends r (record r { simple_internal_wildcards = r.simple_internal_wildcards ++ x ∷ [] })
  simple-Extends x =
      let held = append-KeepsItems r.simple_internal_wildcards (x ∷ []) in assumption held

  internal-Extends :
      (x : InternalPattern)
      → Extends r
          (record r { internal_double_star_wildcards = r.internal_double_star_wildcards ++ x ∷ [] })
  internal-Extends x =
      let held = append-KeepsItems r.internal_double_star_wildcards (x ∷ []) in assumption held

  trie-Extends :
      (ls : List Text)
      → Extends r (record r { multi_star_trie = Trie.insert ls index r.multi_star_trie })
  trie-Extends ls =
      let held = λ (hs : List Text) (f : Found (Trie.lookup_from hs r.multi_star_trie)).
        lookup_from-insert_keeps ls index hs r.multi_star_trie f in
      assumption held

  push_complex-Extends : (ls : List Text) → Extends r (push_complex ls index r)
  unfolding push_complex
  push_complex-Extends ls =
      let held = append-KeepsItems r.complex_patterns ((ls, index) ∷ []) in assumption held

  add_catch_all-Extends : Extends r (add_catch_all index r)
  unfolding add_catch_all
  add_catch_all-Extends =
      option_cases (Extends r) r.catch_all (record r { catch_all = some index }) (λ _. r)
        (λ _. let held = λ (f : Found r.catch_all). Found-some index f in assumption held)
        (λ _ _. e)

  add_rest-Extends : (ls : List Text) → Extends r (add_rest ls index r)
  unfolding add_rest
  add_rest-Extends ls =
      if_cases (Extends r)
        (ltb 1 (count (λ l. text_eq l star) ls) && not (any (λ l. text_eq l double_star) ls)) _ _
        (λ _. trie-Extends ls)
        (λ _.
          if_cases (Extends r)
            (any (λ l. text_eq l double_star) ls && not (any (λ l. text_eq l star) ls)) _ _
            (λ _.
              option_cases (Extends r) (inner_position double_star ls) _ _
                (λ _. push_complex-Extends ls)
                (λ pos _. internal-Extends (take pos ls, drop (pos + 1) ls, index)))
            (λ _. push_complex-Extends ls))

  add_labels-Extends : (ls : List Text) → Extends r (add_labels ls index r)
  unfolding add_labels
  add_labels-Extends ls =
      if_cases (Extends r) (first_is_double_star ls && all (λ l. not (contains_star l)) (drop 1 ls))
        _ _ (λ _. counted_leading-Extends (length ls - 1) (join dot (drop 1 ls)))
        (λ _.
          if_cases (Extends r)
            (last_is_double_star ls && all (λ l. not (contains_star l)) (take (length ls - 1) ls)) _
            _ (λ _. counted_trailing-Extends (length ls - 1) (join dot (take (length ls - 1) ls)))
            (λ _.
              if_cases (Extends r)
                (any (λ l. text_eq l double_star) ls && any (λ l. text_eq l star) ls) _ _
                (λ _. push_complex-Extends ls)
                (λ _.
                  if_cases (Extends r)
                    (count (λ l. text_eq l star) ls == 1
                      && not (any (λ l. text_eq l double_star) ls))
                    _ _
                    (λ _.
                      option_cases (Extends r) (inner_position star ls) _ _
                        (λ _. add_rest-Extends ls)
                        (λ pos _. simple-Extends (take pos ls, drop (pos + 1) ls, index)))
                    (λ _. add_rest-Extends ls))))

  add_pattern-Extends_lem : (pattern : Text) → Extends r (add_pattern pattern index r)
  unfolding add_pattern
  add_pattern-Extends_lem pattern =
      if_cases (Extends r) (text_eq pattern star || text_eq pattern double_star) _ _
        (λ _. add_catch_all-Extends)
        (λ _.
          if_cases (Extends r) (count (λ c. c == b'*') pattern == 0) _ _
            (λ _. exact-Extends pattern)
            (λ _.
              if_cases (Extends r)
                (count (λ c. c == b'*') pattern == 1 && starts_with (codes "*.") pattern) _ _
                (λ _. leading-Extends (drop 2 pattern))
                (λ _.
                  if_cases (Extends r)
                    (count (λ c. c == b'*') pattern == 1 && ends_with (codes ".*") pattern) _ _
                    (λ _. trailing-Extends (take (length pattern - 2) pattern))
                    (λ _. add_labels-Extends (split dot pattern)))))

pub add_pattern-Extends :
    (index : ℕ) (r : HostRouter) (pattern : Text) → Extends r (add_pattern pattern index r)
add_pattern-Extends index r pattern = add_pattern-Extends_lem index r (Extends-self r) pattern
