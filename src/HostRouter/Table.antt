-- ===== src/HostRouter/Table.antt =====
-- core/host_router.rs, `HostRouter` with `new`, `add_pattern` and `matches`. A `HashMap` is an
-- association list; a `BTreeMap` from label counts is one too, in ascending order of the counts.
use scety.Prelude.{
  ℕ, ◌+◌, ◌-◌, Bool, false, not, ◌&&◌, ◌||◌, Option, none, some, List, [], ◌∷◌, ◌++◌, reverse, ltb,
  leb, ◌==◌, if◌then◌else◌, or_else, length, take, drop, all, any, count, position,
}
use scety.Text.{Text, codes, text_eq, split, join, split_once, rsplit_once, starts_with, ends_with}
use scety.Map
use scety.Map.{Map}
use scety.HostRouter.Labels.{star, double_star}
use scety.HostRouter.Dp.{dp_host_matches}
use scety.HostRouter.Internal.{matches_single_internal_wildcard, matches_internal_double_star}
use scety.HostRouter.Trie
use scety.HostRouter.Trie.{TrieNode}

abbrev pub dot : ℕ
dot = b'.'

-- `BTreeMap<usize, HashMap<String, usize>>`
abbrev pub CountMap : Type 0
CountMap = List (ℕ × Map ℕ)

abbrev pub InternalPattern : Type 0
InternalPattern = List Text × List Text × ℕ

pub record HostRouter : Type 0 where
  pub exact_matches : Map ℕ
  pub leading_wildcards : Map ℕ
  pub trailing_wildcards : Map ℕ
  pub double_star_leading : CountMap
  pub double_star_trailing : CountMap
  pub simple_internal_wildcards : List InternalPattern
  pub internal_double_star_wildcards : List InternalPattern
  pub multi_star_trie : TrieNode
  pub complex_patterns : List (List Text × ℕ)
  pub catch_all : Option ℕ

abbrev pub new : HostRouter
new = record {
  exact_matches = [];
  leading_wildcards = [];
  trailing_wildcards = [];
  double_star_leading = [];
  double_star_trailing = [];
  simple_internal_wildcards = [];
  internal_double_star_wildcards = [];
  multi_star_trie = Trie.new;
  complex_patterns = [];
  catch_all = none;
}

-- `map.entry(count).or_default().insert(known_parts, index)`
unfoldable pub insert_counted : ℕ → Text → ℕ → CountMap → CountMap
unfolding Map.insert
insert_counted n known index [] = (n, (known, index) ∷ []) ∷ []
insert_counted n known index ((k, m) ∷ counted) =
    if n == k
    then (k, Map.insert known index m) ∷ counted
    else if ltb n k
    then (n, (known, index) ∷ []) ∷ (k, m) ∷ counted
    else (k, m) ∷ insert_counted n known index counted

-- `label.contains('*')`
unfoldable pub contains_star : Text → Bool
contains_star label = any (λ c. c == b'*') label

-- `labels.first() == Some(&"**")` and `labels.last() == Some(&"**")`
abbrev pub first_is_double_star : List Text → Bool
first_is_double_star [] = false
first_is_double_star (l ∷ ls) = text_eq l double_star

unfoldable pub last_is_double_star : List Text → Bool
last_is_double_star [] = false
last_is_double_star (l ∷ []) = text_eq l double_star
last_is_double_star (l ∷ k ∷ ls) = last_is_double_star (k ∷ ls)

-- `labels.iter().position(..)`, and `if let Some(pos) && pos > 0 && pos < labels.len() - 1`
unfoldable pub inner_position : Text → List Text → Option ℕ
inner_position w labels = elim (position (λ l. text_eq l w) labels) [
  | none ↦ none
  | some pos ↦ if ltb 0 pos && ltb pos (length labels - 1) then some pos else none
]

unfoldable pub push_complex : List Text → ℕ → HostRouter → HostRouter
push_complex labels index r = record r {
  complex_patterns = r.complex_patterns ++ (labels, index) ∷ [];
}

-- `add_pattern` from `if single_wildcard_count > 1` on.
unfoldable pub add_rest : List Text → ℕ → HostRouter → HostRouter
unfolding inner_position push_complex Trie.insert
add_rest labels index r =
    let has_double_star = any (λ l. text_eq l double_star) labels in
    let has_single_star = any (λ l. text_eq l star) labels in
    let single_wildcard_count = count (λ l. text_eq l star) labels in
    if ltb 1 single_wildcard_count && not has_double_star
    then record r { multi_star_trie = Trie.insert labels index r.multi_star_trie }
    else if has_double_star && not has_single_star
    then elim (inner_position double_star labels) [
      | some pos ↦ record r {
        internal_double_star_wildcards =
            r.internal_double_star_wildcards
            ++ (take pos labels, drop (pos + 1) labels, index) ∷ [];
      }
      | none ↦ push_complex labels index r
    ]
    else push_complex labels index r

-- `add_pattern` from `let labels = pattern.split('.')` on.
unfoldable pub add_labels : List Text → ℕ → HostRouter → HostRouter
unfolding contains_star last_is_double_star inner_position push_complex add_rest insert_counted
add_labels labels index r =
    let has_double_star = any (λ l. text_eq l double_star) labels in
    let has_single_star = any (λ l. text_eq l star) labels in
    let single_wildcard_count = count (λ l. text_eq l star) labels in
    if first_is_double_star labels && all (λ l. not (contains_star l)) (drop 1 labels)
    then record r {
      double_star_leading =
          insert_counted (length labels - 1) (join dot (drop 1 labels)) index r.double_star_leading;
    }
    else if last_is_double_star labels
        && all (λ l. not (contains_star l)) (take (length labels - 1) labels)
    then record r {
      double_star_trailing =
          insert_counted (length labels - 1) (join dot (take (length labels - 1) labels)) index
            r.double_star_trailing;
    }
    else if has_double_star && has_single_star
    then push_complex labels index r
    else if single_wildcard_count == 1 && not has_double_star
    then elim (inner_position star labels) [
      | some pos ↦ record r {
        simple_internal_wildcards =
            r.simple_internal_wildcards ++ (take pos labels, drop (pos + 1) labels, index) ∷ [];
      }
      | none ↦ add_rest labels index r
    ]
    else add_rest labels index r

-- `self.catch_all = Some(index)`, unless there is one.
unfoldable pub add_catch_all : ℕ → HostRouter → HostRouter
add_catch_all index r = elim r.catch_all [ some _ ↦ r | none ↦ record r { catch_all = some index } ]

unfoldable pub add_pattern : Text → ℕ → HostRouter → HostRouter
unfolding add_catch_all add_labels Map.insert
add_pattern pattern index r =
    let star_count = count (λ c. c == b'*') pattern in
    if text_eq pattern star || text_eq pattern double_star
    then add_catch_all index r
    else if star_count == 0
    then record r { exact_matches = Map.insert pattern index r.exact_matches }
    else if star_count == 1 && starts_with (codes "*.") pattern
    then record r { leading_wildcards = Map.insert (drop 2 pattern) index r.leading_wildcards }
    else if star_count == 1 && ends_with (codes ".*") pattern
    then record r {
      trailing_wildcards =
          Map.insert (take (length pattern - 2) pattern) index r.trailing_wildcards;
    }
    else add_labels (split dot pattern) index r

-- `if !m.is_empty()`, which guards most of the searches.
abbrev pub unless_empty {ℓ} : {A : Type ℓ} → List A → Option ℕ → Option ℕ
unless_empty [] found = none
unless_empty (x ∷ xs) found = found

-- `for (&count, known_map) in self.double_star_leading.iter().rev()`
unfoldable pub find_leading : List Text → CountMap → Option ℕ
unfolding Map.get join
find_leading host_labels [] = none
find_leading host_labels ((n, known_map) ∷ counted) =
    or_else
      (if leb n (length host_labels)
        then Map.get (join dot (drop (length host_labels - n) host_labels)) known_map
        else none)
      (find_leading host_labels counted)

unfoldable pub find_trailing : List Text → CountMap → Option ℕ
unfolding Map.get join
find_trailing host_labels [] = none
find_trailing host_labels ((n, known_map) ∷ counted) =
    or_else
      (if leb n (length host_labels)
        then Map.get (join dot (take n host_labels)) known_map
        else none)
      (find_trailing host_labels counted)

-- The loops over the vectors of patterns: the index of the first that matches.
unfoldable pub find_internal :
    (List Text → List Text → List Text → Bool) → List Text → List InternalPattern → Option ℕ
find_internal test host_labels [] = none
find_internal test host_labels ((prefix_labels, suffix_labels, index) ∷ patterns) =
    if test prefix_labels suffix_labels host_labels
    then some index
    else find_internal test host_labels patterns

unfoldable pub find_complex : List Text → List (List Text × ℕ) → Option ℕ
unfolding dp_host_matches
find_complex host_labels [] = none
find_complex host_labels ((pattern_labels, index) ∷ patterns) =
    if dp_host_matches pattern_labels host_labels
    then some index
    else find_complex host_labels patterns

-- `host.split_once('.')` and `host.rsplit_once('.')`, and the lookup of the known part.
unfoldable pub find_edge_leading : Text → Map ℕ → Option ℕ
unfolding Map.get split_once
find_edge_leading host m = elim (split_once dot host) [ none ↦ none | some p ↦ Map.get p.1 m ]

unfoldable pub find_edge_trailing : Text → Map ℕ → Option ℕ
unfolding Map.get rsplit_once
find_edge_trailing host m = elim (rsplit_once dot host) [ none ↦ none | some p ↦ Map.get p.0 m ]

unfoldable pub matches : HostRouter → Text → Option ℕ
unfolding Map.get find_leading find_trailing find_internal find_complex find_edge_leading
    find_edge_trailing matches_single_internal_wildcard matches_internal_double_star
    Trie.lookup_from split
matches r host =
    let host_labels = split dot host in
    or_else (unless_empty r.exact_matches (Map.get host r.exact_matches)) (
      or_else (find_leading host_labels (reverse r.double_star_leading)) (
        or_else (find_trailing host_labels (reverse r.double_star_trailing)) (
          or_else
            (find_internal matches_single_internal_wildcard host_labels r.simple_internal_wildcards)
            (or_else
              (find_internal matches_internal_double_star host_labels
                r.internal_double_star_wildcards)
              (or_else (Trie.lookup_from host_labels r.multi_star_trie) (
                or_else (find_complex host_labels r.complex_patterns) (
                  or_else
                    (unless_empty r.leading_wildcards (find_edge_leading host r.leading_wildcards))
                    (or_else
                      (unless_empty r.trailing_wildcards
                        (find_edge_trailing host r.trailing_wildcards))
                      r.catch_all))))))))
