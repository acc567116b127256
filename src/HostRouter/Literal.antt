-- ===== src/HostRouter/Literal.antt =====
-- Labels with no wildcard, and what a match says of them.
use scety.Prelude.{◌≡◌, refl, ap, subst, false, ◌||◌, List, [], ◌∷◌, ◌++◌, arith, All}
use scety.Text.{Text, text_eq, text_eq_iff}
use scety.HostRouter.Labels.{
  star, double_star, Matches, done, one, skip, eat, Matches-self, Matches-append,
}

-- The label is neither `*` nor `**`.
abbrev pub Literal : Text → Type 0
Literal p = (text_eq p star || text_eq p double_star) ≡ false

-- A literal label is matched by itself alone.
Matches-Literal_cons :
    {p : Text} (ps hs : List Text)
    → Literal p
    → Matches (p ∷ ps) hs
    → (gs : List Text) × (hs ≡ p ∷ gs) × Matches ps gs
Matches-Literal_cons {p} ps hs l (one {h} {hs = gs} c d) = (gs, ground (arith, text_eq_iff p h), d)
Matches-Literal_cons {p} ps hs l (skip e d) = absurd (ground (arith, text_eq_iff p double_star))
Matches-Literal_cons {p} ps hs l (eat e d) = absurd (ground (arith, text_eq_iff p double_star))

-- A literal prefix of the pattern is a prefix of the host.
pub Matches-Literal_prefix :
    (ps qs hs : List Text)
    → All Literal ps
    → Matches (ps ++ qs) hs
    → (gs : List Text) × (hs ≡ ps ++ gs) × Matches qs gs
Matches-Literal_prefix [] qs hs ls d = (hs, refl, d)
Matches-Literal_prefix (p ∷ ps) qs hs ls d =
    let (gs, e, d') = Matches-Literal_cons (ps ++ qs) hs ls.0 d in
    let (fs, e', d'') = Matches-Literal_prefix ps qs gs ls.1 d' in (fs, cc, d'')

Matches-nil : (hs : List Text) → Matches [] hs → hs ≡ []
Matches-nil hs done = refl

-- Literal labels are matched by themselves alone.
pub Matches-Literal : (ps hs : List Text) → All Literal ps → Matches ps hs → hs ≡ ps
Matches-Literal [] hs ls d = Matches-nil hs d
Matches-Literal (p ∷ ps) hs ls d =
    let (gs, e, d') = Matches-Literal_cons ps hs ls.0 d in
    let e' = Matches-Literal ps gs ls.1 d' in cc

star≢double_star : text_eq star double_star ≡ false
unfolding text_eq
star≢double_star = refl

-- `*` and then literals: one label, and the literals.
pub Matches-star :
    (ps hs : List Text) → All Literal ps → Matches (star ∷ ps) hs → (h : Text) × (hs ≡ h ∷ ps)
Matches-star ps hs ls (one {h} {hs = gs} c d) = (h, ap (◌∷◌ h) (Matches-Literal ps gs ls d))
Matches-star ps hs ls (skip e d) =
    absurd (cc (star≢double_star, (text_eq_iff star double_star).1 e))
Matches-star ps hs ls (eat e d) = absurd (cc (star≢double_star, (text_eq_iff star double_star).1 e))

-- `**` and then literals: any labels, and the literals.
pub Matches-double_star_inv :
    {qs : List Text} (ps hs : List Text)
    → All Literal ps
    → qs ≡ double_star ∷ ps
    → Matches qs hs
    → (mid : List Text) × (hs ≡ mid ++ ps)
Matches-double_star_inv ps hs ls eq done = absurd (cc)
Matches-double_star_inv ps hs ls eq (one {h} {hs = gs} c d) =
    let e' = Matches-Literal ps gs ls (subst (λ qs. Matches qs gs) (cc) d) in
    (h ∷ [], ap (◌∷◌ h) e')
Matches-double_star_inv ps hs ls eq (skip {hs = gs} e d) =
    ([], Matches-Literal ps gs ls (subst (λ qs. Matches qs gs) (cc) d))
Matches-double_star_inv ps hs ls eq (eat {h} {hs = gs} e d) =
    let (mid, e') = Matches-double_star_inv ps gs ls eq d in (h ∷ mid, ap (◌∷◌ h) e')

pub append-Literal : (ps qs : List Text) → All Literal ps → All Literal qs → All Literal (ps ++ qs)
append-Literal [] qs l k = k
append-Literal (p ∷ ps) qs l k = (l.0, append-Literal ps qs l.1 k)

-- A wildcard between two lists of labels: what such a pattern does match.
pub Matches-around_star : (ps qs : List Text) (h : Text) → Matches (ps ++ star ∷ qs) (ps ++ h ∷ qs)
unfolding text_eq
Matches-around_star ps qs h =
    Matches-append (star ∷ qs) (h ∷ qs) (Matches-self ps) (one refl (Matches-self qs))

Matches-skip_over :
    (mid : List Text) {qs gs : List Text} → Matches qs gs → Matches (double_star ∷ qs) (mid ++ gs)
Matches-skip_over [] d = skip refl d
Matches-skip_over (m ∷ mid) d = eat refl (Matches-skip_over mid d)

pub Matches-around_double_star :
    (ps mid qs : List Text) → Matches (ps ++ double_star ∷ qs) (ps ++ (mid ++ qs))
Matches-around_double_star ps mid qs =
    Matches-append (double_star ∷ qs) (mid ++ qs) (Matches-self ps)
      (Matches-skip_over mid (Matches-self qs))
