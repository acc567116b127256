-- ===== src/HostRouter/Trie/Finds.antt =====
-- A lookup finds a value for each host that an inserted pattern matches, and later insertions keep
-- it so. A pattern that is inserted again keeps its first index.
use scety.Prelude.{
  or_else, Found, ℕ, ◌≡◌, refl, subst, sym, ◌⊎◌, inl, inr, true, false, Option, none, some, List,
  [], ◌∷◌, arith, All, Bool-cases,
}
use scety.Text.{Text, text_eq, text_eq_iff, text_eq_cases}
use scety.HostRouter.Labels.{star, double_star, Matches, done, one, skip, eat}
use scety.HostRouter.Trie.{
  TrieNode, node, Children, WildcardChild, absent, boxed, new, get_child, on_child, on_wildcard,
  first_value, insert, below, as_deref, lookup_from, node_or_new, get_child-on_child,
}

abbrev pub NotDoubleStar : Text → Type 0
NotDoubleStar p = text_eq p double_star ≡ false

Found-first_value : (o : Option ℕ) (index : ℕ) → Found (first_value o index)
Found-first_value none index = (index, refl)
Found-first_value (some v) index = (v, refl)

pub Found-or_else_left : (a b : Option ℕ) → Found a → Found (or_else a b)
Found-or_else_left none b (v, e) = absurd (cc)
Found-or_else_left (some u) b f = (u, refl)

pub Found-or_else_right : (a b : Option ℕ) → Found b → Found (or_else a b)
Found-or_else_right none b f = f
Found-or_else_right (some u) b f = (u, refl)

Found-or_else_inv : (a b : Option ℕ) → Found (or_else a b) → Found a ⊎ Found b
Found-or_else_inv none b f = inr f
Found-or_else_inv (some u) b f = inl (u, refl)

Found-below_wildcard :
    (g : TrieNode → Option ℕ) (f : TrieNode → TrieNode) (w : WildcardChild)
    → ((n : TrieNode) → Found (g n) → Found (g (f n)))
    → Found (below g (as_deref w))
    → Found (below g (as_deref (on_wildcard f w)))
unfolding on_wildcard
Found-below_wildcard g f absent keeps (v, e) = absurd (cc)
Found-below_wildcard g f (boxed n) keeps found = keeps n found

Found-below_new :
    (g : TrieNode → Option ℕ) (f : TrieNode → TrieNode) (o : Option TrieNode)
    → ((n : TrieNode) → Found (g n) → Found (g (f n)))
    → Found (below g o)
    → Found (g (f (node_or_new o)))
Found-below_new g f none keeps (v, e) = absurd (cc)
Found-below_new g f (some n) keeps found = keeps n found

-- What a search below a child's key meets after the child was changed.
below-on_child :
    (P : Option ℕ → Type 0) (g : TrieNode → Option ℕ) (f : TrieNode → TrieNode) (q h : Text)
    (cs : Children)
    → (q ≡ h → P (g (f (node_or_new (get_child q cs)))))
    → (text_eq q h ≡ false → P (below g (get_child h cs)))
    → P (below g (get_child h (on_child q f cs)))
below-on_child P g f q h cs here elsewhere =
    rw (get_child-on_child q h f cs) (elim (text_eq_cases q h) [
      | inl same ↦ rw ((text_eq_iff q h).1 same) (here same)
      | inr other ↦ rw other (elsewhere other)
    ])

Found-below_child :
    (g : TrieNode → Option ℕ) (f : TrieNode → TrieNode) (q h : Text) (cs : Children)
    → ((n : TrieNode) → Found (g n) → Found (g (f n)))
    → Found (below g (get_child h cs))
    → Found (below g (get_child h (on_child q f cs)))
Found-below_child g f q h cs keeps found =
    below-on_child Found g f q h cs
      (λ same.
        Found-below_new g f (get_child q cs) keeps
          (subst (λ k. Found (below g (get_child k cs))) (sym same) found))
      (λ _. found)

insert-star :
    (q : Text) (qs : List Text) (index : ℕ) (cs : Children) (w : WildcardChild) (o : Option ℕ)
    → text_eq q star ≡ true
    → insert (q ∷ qs) index (node cs w o) ≡ node cs (on_wildcard (insert qs index) w) o
unfolding insert
insert-star q qs index cs w o e = rw e

insert-literal :
    (q : Text) (qs : List Text) (index : ℕ) (cs : Children) (w : WildcardChild) (o : Option ℕ)
    → text_eq q star ≡ false
    → insert (q ∷ qs) index (node cs w o) ≡ node (on_child q (insert qs index) cs) w o
unfolding insert
insert-literal q qs index cs w o e = rw e

lookup_from-cons :
    (h : Text) (hs : List Text) (cs : Children) (w : WildcardChild) (o : Option ℕ)
    → lookup_from (h ∷ hs) (node cs w o)
      ≡ or_else (below (lookup_from hs) (get_child h cs)) (below (lookup_from hs) (as_deref w))
unfolding lookup_from
lookup_from-cons h hs cs w o = refl

-- A host that is found before an insertion is found after it.
pub lookup_from-insert_keeps :
    (qs : List Text) (index : ℕ) (hs : List Text) (t : TrieNode)
    → Found (lookup_from hs t)
    → Found (lookup_from hs (insert qs index t))
lookup_from-insert_keeps [] index [] (node cs w o) found =
    unfold insert lookup_from in Found-first_value o index
lookup_from-insert_keeps [] index (h ∷ hs) (node cs w o) found = unfold insert lookup_from in found
lookup_from-insert_keeps (q ∷ qs) index [] (node cs w o) found =
    elim (Bool-cases (text_eq q star)) [
      | inl e ↦ rw (insert-star q qs index cs w o e) (unfold lookup_from in found)
      | inr e ↦ rw (insert-literal q qs index cs w o e) (unfold lookup_from in found)
    ]
lookup_from-insert_keeps (q ∷ qs) index (h ∷ hs) (node cs w o) found =
    let keeps = lookup_from-insert_keeps qs index hs in
    let g = lookup_from hs in
    let parts =
      Found-or_else_inv (below g (get_child h cs)) (below g (as_deref w))
        (subst Found (lookup_from-cons h hs cs w o) found) in
    elim (Bool-cases (text_eq q star)) [
      | inl e ↦
          rw (insert-star q qs index cs w o e, lookup_from-cons)
            (elim parts [
              | inl a ↦ Found-or_else_left _ _ a
              | inr b ↦ Found-or_else_right _ _ (Found-below_wildcard g (insert qs index) w keeps b)
            ])
      | inr e ↦
          rw (insert-literal q qs index cs w o e, lookup_from-cons)
            (elim parts [
              | inl a ↦
                  Found-or_else_left _ _ (Found-below_child g (insert qs index) q h cs keeps a)
              | inr b ↦ Found-or_else_right _ _ b
            ])
    ]

below-wildcard_self :
    (g : TrieNode → Option ℕ) (f : TrieNode → TrieNode) (w : WildcardChild)
    → ((n : TrieNode) → Found (g (f n)))
    → Found (below g (as_deref (on_wildcard f w)))
unfolding on_wildcard
below-wildcard_self g f absent all = all new
below-wildcard_self g f (boxed n) all = all n

-- After the insertion of a pattern without `**`, every host that it matches is found.
pub lookup_from-insert_self :
    (index : ℕ) {qs hs : List Text} (t : TrieNode)
    → All NotDoubleStar qs
    → Matches qs hs
    → Found (lookup_from hs (insert qs index t))
lookup_from-insert_self index (node cs w o) plain done =
    unfold insert lookup_from in Found-first_value o index
lookup_from-insert_self index (node cs w o) plain (one {p = q} {h} {ps = qs} {hs} c d) =
    let all = λ (n : TrieNode). lookup_from-insert_self index n plain.1 d in
    let g = lookup_from hs in
    elim (Bool-cases (text_eq q star)) [
      | inl e ↦
          rw (insert-star q qs index cs w o e, lookup_from-cons)
            (Found-or_else_right _ _ (below-wildcard_self g (insert qs index) w all))
      | inr e ↦
          rw (insert-literal q qs index cs w o e, lookup_from-cons)
            (Found-or_else_left _ _ (
              below-on_child Found g (insert qs index) q h cs (λ _. all _)
                (λ other. absurd (ground arith))))
    ]
lookup_from-insert_self index t plain (skip {p} e d) =
    absurd (ground (arith, text_eq_iff p double_star))
lookup_from-insert_self index t plain (eat {p} e d) =
    absurd (ground (arith, text_eq_iff p double_star))
