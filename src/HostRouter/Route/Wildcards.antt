-- ===== src/HostRouter/Route/Wildcards.antt =====
-- Where the wildcards of a list of labels stand.
use scety.Prelude.{
  ℕ, ◌+◌, ◌≤◌, ◌≡◌, refl, ◌⊎◌, Bool, true, false, some, List, [], ◌∷◌, ◌++◌, arith, if◌then◌else◌,
  count, any, All,
}
use scety.Text.{Text, text_eq, text_eq_iff}
use scety.HostRouter.Labels.{star, double_star}
use scety.HostRouter.Literal.{Literal}
use scety.HostRouter.Trie.Finds.{NotDoubleStar}
use scety.HostRouter.Table.{inner_position, first_is_double_star}

abbrev pub has : Text → List Text → Bool
has w ls = any (λ l. text_eq l w) ls

abbrev pub times : Text → List Text → ℕ
times w ls = count (λ l. text_eq l w) ls

-- What the table stores in a way that finds all that the pattern means: a `*` label, at most one
-- `**`, or a `**` at the front.
abbrev pub Supported : List Text → Type 0
Supported ls =
    (has star ls ≡ true) ⊎ ((times double_star ls ≤ 1) ⊎ (first_is_double_star ls ≡ true))

times-zero : (w : Text) (ls : List Text) → times w ls ≡ 0 → has w ls ≡ false
times-zero w [] h = refl
times-zero w (l ∷ ls) h = ground (arith, times-zero w ls)

pub Literal-all :
    (ls : List Text) → has star ls ≡ false → has double_star ls ≡ false → All Literal ls
Literal-all [] s d = tt
Literal-all (l ∷ ls) s d = (ground arith, Literal-all ls (ground arith) (ground arith))

pub NotDoubleStar-all : (ls : List Text) → has double_star ls ≡ false → All NotDoubleStar ls
NotDoubleStar-all [] d = tt
NotDoubleStar-all (l ∷ ls) d = (ground arith, NotDoubleStar-all ls (ground arith))

has-append_false :
    (w x : Text) (ps qs : List Text)
    → has w (ps ++ x ∷ qs) ≡ false
    → (has w ps ≡ false) × (has w qs ≡ false)
has-append_false w x [] qs h = (refl, ground arith)
has-append_false w x (p ∷ ps) qs h = ground (arith, has-append_false w x ps qs)

times-append :
    (w x : Text) (ps qs : List Text)
    → times w (ps ++ x ∷ qs) ≡ times w ps + (if text_eq x w then 1 else 0) + times w qs
times-append w x [] qs = ground arith
times-append w x (p ∷ ps) qs = ground (arith, times-append w x ps qs)

-- Around the one wildcard of a list of labels stand literal labels.
pub around-Literal :
    (w v : Text) (ps qs : List Text)
    → times w (ps ++ w ∷ qs) ≤ 1
    → has v (ps ++ w ∷ qs) ≡ false
    → ((has w ps ≡ false) × (has v ps ≡ false)) × ((has w qs ≡ false) × (has v qs ≡ false))
around-Literal w v ps qs one none_other =
    let (l, r) = has-append_false v w ps qs none_other in
    (
      (times-zero w ps (ground (arith, times-append w w ps qs, text_eq_iff w w)), l),
      (times-zero w qs (ground (arith, times-append w w ps qs, text_eq_iff w w)), r),
    )

-- A leading `**` is not an inner one.
pub first-not-inner :
    (ls : List Text) (pos : ℕ)
    → first_is_double_star ls ≡ true
    → inner_position double_star ls ≡ some pos
    → ⊥
unfolding inner_position
first-not-inner [] pos f e = absurd (cc)
first-not-inner (l ∷ ls) pos f e = ground arith
