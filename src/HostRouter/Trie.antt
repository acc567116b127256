-- ===== src/HostRouter/Trie.antt =====
-- core/host_router.rs, `LabelTrie` and `TrieNode`: the patterns with several `*` and no `**`.
use scety.Prelude.{
  ℕ, ◌≡◌, refl, Bool, true, false, Option, none, some, List, [], ◌∷◌, if◌then◌else◌, arith, or_else,
}
use scety.Text.{Text, text_eq, text_eq_iff}
use scety.HostRouter.Labels.{star}
pub mod Paths
pub mod Finds

-- A node owns its children, a map from labels to nodes, and perhaps a wildcard child.
mutual
  pub data TrieNode : Type 0 where
    node : Children → WildcardChild → Option ℕ → TrieNode

  pub data Children : Type 0 where
    no_child : Children
    child : Text → TrieNode → Children → Children

  pub data WildcardChild : Type 0 where
    absent : WildcardChild
    boxed : TrieNode → WildcardChild

-- `TrieNode::new`, also `LabelTrie::new`.
abbrev pub new : TrieNode
new = node no_child absent none

-- `children.get(label)`
unfoldable pub get_child : Text → Children → Option TrieNode
get_child l no_child = none
get_child l (child k n cs) = if text_eq k l then some n else get_child l cs

-- `children.entry(label).or_insert_with(TrieNode::new)`, and what is done to that node.
unfoldable pub on_child : Text → (TrieNode → TrieNode) → Children → Children
on_child l f no_child = child l (f new) no_child
on_child l f (child k n cs) = if text_eq k l then child k (f n) cs else child k n (on_child l f cs)

-- `wildcard_child.get_or_insert_with(..)`, and what is done to that node.
unfoldable pub on_wildcard : (TrieNode → TrieNode) → WildcardChild → WildcardChild
on_wildcard f absent = boxed (f new)
on_wildcard f (boxed n) = boxed (f n)

-- `if node.value.is_none() { node.value = Some(index) }`
abbrev pub first_value : Option ℕ → ℕ → Option ℕ
first_value none index = some index
first_value (some v) index = some v

-- `LabelTrie::insert`, from a node on.
unfoldable pub insert : List Text → ℕ → TrieNode → TrieNode
unfolding on_child on_wildcard get_child
insert [] index (node cs w v) = node cs w (first_value v index)
insert (label ∷ labels) index (node cs w v) =
    let next = insert labels index in
    if text_eq label star then node cs (on_wildcard next w) v else node (on_child label next cs) w v

-- `if let Some(child) = .. && let Some(found) = ..`: the search below an optional node.
abbrev pub below : (TrieNode → Option ℕ) → Option TrieNode → Option ℕ
below f none = none
below f (some n) = f n

abbrev pub as_deref : WildcardChild → Option TrieNode
as_deref absent = none
as_deref (boxed n) = some n

-- `LabelTrie::lookup_from`; the list is `host_labels[pos..]`.
unfoldable pub lookup_from : List Text → TrieNode → Option ℕ
unfolding get_child
lookup_from [] (node cs w v) = v
lookup_from (label ∷ labels) (node cs w v) =
    let deeper = lookup_from labels in
    or_else (below deeper (get_child label cs)) (below deeper (as_deref w))

abbrev pub node_or_new : Option TrieNode → TrieNode
node_or_new none = new
node_or_new (some n) = n

pub get_child-on_child :
    (l k : Text) (f : TrieNode → TrieNode) (cs : Children)
    → get_child k (on_child l f cs)
      ≡ (if text_eq l k then some (f (node_or_new (get_child l cs))) else get_child k cs)
unfolding get_child on_child
get_child-on_child l k f no_child = refl
get_child-on_child l k f (child j n cs) =
    ground (arith, text_eq_iff l k, text_eq_iff j l, text_eq_iff j k, get_child-on_child l k f cs)
