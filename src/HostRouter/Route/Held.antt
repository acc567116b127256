-- ===== src/HostRouter/Route/Held.antt =====
-- What the fields of a `HostRouter` hold, in terms of the label lists of the patterns that were
-- added, and that this is all that an index is found by.
use scety.Prelude.{
  ℕ, ◌-◌, ◌≤◌, ◌≡◌, refl, subst, ◌⊎◌, inr, some, List, [], ◌∷◌, ◌++◌, arith, length, take, drop,
  All, take-append-drop, length-drop,
}
use scety.Text.{Text, split, join}
use scety.Text.Words.{Free, join_injective}
use scety.Map
use scety.Map.{Map}
use scety.HostRouter.Labels.{
  star, double_star, Matches, Matches-self, Matches-append, Matches-double_star,
}
use scety.HostRouter.Trie.Paths.{At}
use scety.HostRouter.Table.{dot, InternalPattern, HostRouter}

-- A lone `*` takes every host; any other pattern goes label by label.
abbrev pub Serves : List Text → List Text → Type 0
Serves ls hs = (ls ≡ star ∷ []) ⊎ Matches ls hs

-- An entry of a counted map: the labels, in number `n`, that `known` joins.
abbrev pub Known : (List Text → ℕ → Type 0) → ℕ → Text → ℕ → Type 0
Known E n known i =
    (ls : List Text) × (known ≡ join dot ls) × (length ls ≡ n) × All (Free dot) ls × E ls i

abbrev pub Counted : (List Text → ℕ → Type 0) → ℕ × Map ℕ → Type 0
Counted E e = (known : Text) (i : ℕ) → Map.get known e.1 ≡ some i → Known E e.0 known i

-- `E ls i`: a pattern with the labels `ls` was added for index `i`.
pub record Holds (E : List Text → ℕ → Type 0) (r : HostRouter) : Type 0 where
  pub exact : (p : Text) (i : ℕ) → Map.get p r.exact_matches ≡ some i → E (split dot p) i
  pub leading :
      (p : Text) (i : ℕ) → Map.get p r.leading_wildcards ≡ some i → E (star ∷ split dot p) i
  pub trailing :
      (p : Text) (i : ℕ) → Map.get p r.trailing_wildcards ≡ some i → E (split dot p ++ star ∷ []) i
  pub counted_leading : All (Counted (λ ls. E (double_star ∷ ls))) r.double_star_leading
  pub counted_trailing : All (Counted (λ ls. E (ls ++ double_star ∷ []))) r.double_star_trailing
  pub simple : All (λ (e : InternalPattern). E (e.0 ++ star ∷ e.1) e.2) r.simple_internal_wildcards
  pub internal :
      All
        (λ (e : InternalPattern). E (e.0 ++ double_star ∷ e.1) e.2)
        r.internal_double_star_wildcards
  pub trie : (ps : List Text) (i : ℕ) → At r.multi_star_trie ps i → E ps i
  pub complex : All (λ (e : List Text × ℕ). E e.0 e.1) r.complex_patterns
  pub catch : (i : ℕ) → r.catch_all ≡ some i → E (star ∷ []) i ⊎ E (double_star ∷ []) i

-- The index comes from a pattern that serves the host.
abbrev pub Justified : (List Text → ℕ → Type 0) → List Text → ℕ → Type 0
Justified E hs i = (ls : List Text) × E ls i × Serves ls hs

-- As many labels as were counted, joined to the same text, are the same labels.
pub same_labels :
    (n : ℕ) (us ws : List Text)
    → length us ≡ n
    → length ws ≡ n
    → All (Free dot) us
    → All (Free dot) ws
    → join dot us ≡ join dot ws
    → us ≡ ws
same_labels n [] [] a b f g e = refl
same_labels n [] (w ∷ ws) a b f g e = absurd (omega arith)
same_labels n (u ∷ us) [] a b f g e = absurd (omega arith)
same_labels n (u ∷ us) (w ∷ ws) a b f g e =
    join_injective dot (u ∷ us) (w ∷ ws) (λ q. cc) (λ q. cc) f g e

-- The last `n` labels, and the first `n`.
pub length-drop_last :
    (n : ℕ) (hs : List Text) → n ≤ length hs → length (drop (length hs - n) hs) ≡ n
length-drop_last n hs h = omega (arith, length-drop {0} (length hs - n) hs)

pub Serves-leading : (k : ℕ) (ls hs : List Text) → drop k hs ≡ ls → Serves (double_star ∷ ls) hs
Serves-leading k ls hs e = inr (
    subst (Matches (double_star ∷ ls)) (take-append-drop k hs)
      (rw e (Matches-append ls ls (Matches-double_star (take k hs)) (Matches-self ls))))

pub Serves-trailing :
    (k : ℕ) (ls hs : List Text) → take k hs ≡ ls → Serves (ls ++ double_star ∷ []) hs
Serves-trailing k ls hs e = inr (
    subst (Matches (ls ++ double_star ∷ [])) (take-append-drop k hs) (
      rw e (
        Matches-append (double_star ∷ []) (drop k hs) (Matches-self ls)
          (Matches-double_star (drop k hs)))))
