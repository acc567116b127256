-- ===== src/HostRouter/Trie/Paths.antt =====
-- The patterns that a trie holds, as paths, and what an insertion adds to them.
use scety.Prelude.{
  or_else-some, ℕ, ◌≡◌, refl, ap₂, ◌∙◌, sym, subst, ◌⊎◌, inl, inr, Option, none, some, List, [],
  ◌∷◌, arith, Bool-cases,
}
use scety.Text.{Text, text_eq, text_eq_iff, text_eq_cases}
use scety.HostRouter.Labels.{star, covers_self, covers-star, Matches, done, one}
use scety.HostRouter.Trie.{
  TrieNode, node, Children, WildcardChild, absent, boxed, new, get_child, on_child, on_wildcard,
  first_value, insert, below, as_deref, lookup_from, node_or_new, get_child-on_child,
}

-- The pattern `ps` leads from the node to the value `v`.
pub data At : TrieNode → List Text → ℕ → Type 0 where
  root :
      {cs : Children} {w : WildcardChild} {o : Option ℕ} {v : ℕ}
      → o ≡ some v
      → At (node cs w o) [] v
  literal :
      {cs : Children} {w : WildcardChild} {o : Option ℕ} {n : TrieNode} {l : Text} {ps : List Text}
      {v : ℕ}
      → get_child l cs ≡ some n
      → At n ps v
      → At (node cs w o) (l ∷ ps) v
  wildcard :
      {cs : Children} {w : WildcardChild} {o : Option ℕ} {n : TrieNode} {l : Text} {ps : List Text}
      {v : ℕ}
      → l ≡ star
      → as_deref w ≡ some n
      → At n ps v
      → At (node cs w o) (l ∷ ps) v

below-some :
    (f : TrieNode → Option ℕ) (o : Option TrieNode) {v : ℕ}
    → below f o ≡ some v
    → (n : TrieNode) × (o ≡ some n) × (f n ≡ some v)
below-some f none e = absurd (cc)
below-some f (some n) e = (n, refl, e)

-- A lookup that finds a value has followed a pattern that matches the host.
pub lookup_from-At :
    (hs : List Text) (t : TrieNode) {v : ℕ}
    → lookup_from hs t ≡ some v
    → (ps : List Text) × At t ps v × Matches ps hs
unfolding lookup_from
lookup_from-At [] (node cs w o) e = ([], root e, done)
lookup_from-At (h ∷ hs) (node cs w o) e =
    elim (or_else-some (below (lookup_from hs) (get_child h cs)) _ e) [
      | inl q ↦
          let (n, g, r) = below-some (lookup_from hs) (get_child h cs) q in
          let (ps, a, m) = lookup_from-At hs n r in (h ∷ ps, literal g a, one (covers_self h) m)
      | inr q ↦
          let (n, g, r) = below-some (lookup_from hs) (as_deref w) q in
          let (ps, a, m) = lookup_from-At hs n r in
          (star ∷ ps, wildcard refl g a, one (covers-star h) m)
    ]

as_deref-on_wildcard :
    (f : TrieNode → TrieNode) (w : WildcardChild)
    → as_deref (on_wildcard f w) ≡ some (f (node_or_new (as_deref w)))
unfolding on_wildcard
as_deref-on_wildcard f absent = refl
as_deref-on_wildcard f (boxed n) = refl

-- Nothing hangs below a new node.
At-new_or :
    (o : Option TrieNode) {ps : List Text} {v : ℕ}
    → At (node_or_new o) ps v
    → (n : TrieNode) × (o ≡ some n) × At n ps v
At-new_or none (root e) = absurd (cc)
At-new_or none (literal {n} g a) = absurd (unfold get_child in cc)
At-new_or none (wildcard l g a) = absurd (cc)
At-new_or (some n) a = (n, refl, a)

-- An insertion below, at every node: the path `qs` with the new index, or an old path.
abbrev Adds : List Text → ℕ → (TrieNode → TrieNode) → Type 0
Adds qs index f =
    (n : TrieNode) (ps : List Text) (v : ℕ) → At (f n) ps v → ((ps ≡ qs) × (v ≡ index)) ⊎ At n ps v

At-on_wildcard :
    (q : Text) (qs : List Text) (index : ℕ) (f : TrieNode → TrieNode) (cs : Children)
    (w : WildcardChild) (o : Option ℕ) {ps : List Text} {v : ℕ}
    → q ≡ star
    → Adds qs index f
    → At (node cs (on_wildcard f w) o) ps v
    → ((ps ≡ q ∷ qs) × (v ≡ index)) ⊎ At (node cs w o) ps v
At-on_wildcard q qs index f cs w o q* adds (root e) = inr (root e)
At-on_wildcard q qs index f cs w o q* adds (literal g a) = inr (literal g a)
At-on_wildcard q qs index f cs w o q* adds (wildcard {n} {l} {ps} {v} l* g a) =
    let e : n ≡ f (node_or_new (as_deref w)) = cc (as_deref-on_wildcard f w) in
    elim (adds (node_or_new (as_deref w)) ps v (subst (λ m. At m ps v) e a)) [
      | inl (p, r) ↦ inl (ap₂ ◌∷◌ (l* ∙ sym q*) p, r)
      | inr b ↦ let (m, h, c) = At-new_or (as_deref w) b in inr (wildcard l* h c)
    ]

At-on_child :
    (q : Text) (qs : List Text) (index : ℕ) (f : TrieNode → TrieNode) (cs : Children)
    (w : WildcardChild) (o : Option ℕ) {ps : List Text} {v : ℕ}
    → Adds qs index f
    → At (node (on_child q f cs) w o) ps v
    → ((ps ≡ q ∷ qs) × (v ≡ index)) ⊎ At (node cs w o) ps v
At-on_child q qs index f cs w o adds (root e) = inr (root e)
At-on_child q qs index f cs w o adds (wildcard l g a) = inr (wildcard l g a)
At-on_child q qs index f cs w o adds (literal {n} {l} {ps} {v} g a) = elim (text_eq_cases q l) [
  | inl same ↦
      let e : n ≡ f (node_or_new (get_child q cs)) =
        ground (arith, get_child-on_child q l f cs, text_eq_iff q l) in
      elim (adds (node_or_new (get_child q cs)) ps v (subst (λ m. At m ps v) e a)) [
        | inl (p, r) ↦ inl (ap₂ ◌∷◌ (sym same) p, r)
        | inr b ↦
            let (m, h, c) = At-new_or (get_child q cs) b in
            inr (literal (subst (λ k. get_child k cs ≡ some m) same h) c)
      ]
  | inr other ↦ inr (literal (ground (arith, get_child-on_child q l f cs)) a)
]

At-first_value :
    (cs : Children) (w : WildcardChild) (o : Option ℕ) (index : ℕ) {v : ℕ}
    → first_value o index ≡ some v
    → (v ≡ index) ⊎ At (node cs w o) [] v
At-first_value cs w none index e = inl (cc)
At-first_value cs w (some u) index e = inr (root e)

-- What a trie holds after an insertion: the new pattern at the new index, or what it held before.
pub At-insert :
    (qs : List Text) (index : ℕ) (t : TrieNode) (ps : List Text) (v : ℕ)
    → At (insert qs index t) ps v
    → ((ps ≡ qs) × (v ≡ index)) ⊎ At t ps v
unfolding insert
At-insert [] index (node cs w o) ps v (root e) = elim (At-first_value cs w o index e) [
  | inl q ↦ inl (refl, q)
  | inr b ↦ inr b
]
At-insert [] index (node cs w o) ps v (literal g a) = inr (literal g a)
At-insert [] index (node cs w o) ps v (wildcard l g a) = inr (wildcard l g a)
At-insert (q ∷ qs) index (node cs w o) ps v a = elim (Bool-cases (text_eq q star)) [
  | inl e ↦
      At-on_wildcard q qs index (insert qs index) cs w o ((text_eq_iff q star).0 e)
        (At-insert qs index) (subst (λ m. At m ps v) (rw e) a)
  | inr e ↦
      At-on_child q qs index (insert qs index) cs w o (At-insert qs index)
        (subst (λ m. At m ps v) (rw e) a)
]

-- A new trie holds nothing.
pub not-At-new : {ps : List Text} {v : ℕ} → ¬ At new ps v
unfolding get_child
not-At-new (root e) = cc
not-At-new (literal g a) = cc
not-At-new (wildcard l g a) = cc
