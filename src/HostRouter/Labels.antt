-- ===== src/HostRouter/Labels.antt =====
-- What a pattern means, label by label, with no search order in it: the specification that the
-- matchers of core/host_router.rs are held to.
use mathlib.Core.List.{reverse-cons, reverse-reverse, append-nil}
use scety.Prelude.{◌≡◌, refl, subst, ◌↔◌, Bool, true, ◌||◌, List, [], ◌∷◌, ◌++◌, reverse, arith}
use scety.Text.{Text, codes, text_eq, text_eq_self}

abbrev pub star : Text
star = codes "*"

abbrev pub double_star : Text
double_star = codes "**"

-- One pattern label against one host label.
abbrev pub covers : Text → Text → Bool
covers p h = text_eq p star || text_eq p h

-- A label other than `**` takes one host label; `**` takes any number of them, none included.
pub data Matches : List Text → List Text → Type 0 where
  done : Matches [] []
  one :
      {p h : Text} {ps hs : List Text}
      → covers p h ≡ true
      → Matches ps hs
      → Matches (p ∷ ps) (h ∷ hs)
  skip : {p : Text} {ps hs : List Text} → p ≡ double_star → Matches ps hs → Matches (p ∷ ps) hs
  eat :
      {p h : Text} {ps hs : List Text}
      → p ≡ double_star
      → Matches (p ∷ ps) hs
      → Matches (p ∷ ps) (h ∷ hs)

pub covers_self : (h : Text) → covers h h ≡ true
covers_self h = ground (arith, text_eq_self h)

pub covers-star : (h : Text) → covers star h ≡ true
covers-star h = ground (arith, text_eq_self star)

-- A list of labels matches itself.
pub Matches-self : (hs : List Text) → Matches hs hs
Matches-self [] = done
Matches-self (h ∷ hs) = one (covers_self h) (Matches-self hs)

-- Two matches, one after the other.
pub Matches-append :
    {ps hs : List Text} (qs gs : List Text)
    → Matches ps hs
    → Matches qs gs
    → Matches (ps ++ qs) (hs ++ gs)
Matches-append qs gs done e = e
Matches-append qs gs (one c d) e = one c (Matches-append qs gs d e)
Matches-append qs gs (skip p d) e = skip p (Matches-append qs gs d e)
Matches-append qs gs (eat p d) e = eat p (Matches-append qs gs d e)

-- `**` takes any labels.
pub Matches-double_star : (hs : List Text) → Matches (double_star ∷ []) hs
Matches-double_star [] = skip refl done
Matches-double_star (h ∷ hs) = eat refl (Matches-double_star hs)

-- A final `**` takes one more label.
eat_last :
    (qs : List Text) (h : Text) {ps hs : List Text}
    → ps ≡ qs ++ double_star ∷ []
    → Matches ps hs
    → Matches ps (hs ++ h ∷ [])
eat_last [] h eq d = rw eq (Matches-double_star _)
eat_last (q ∷ qs) h eq done = absurd (cc)
eat_last (q ∷ qs) h eq (one c d) = one c (eat_last qs h (cc) d)
eat_last (q ∷ qs) h eq (skip p d) = skip p (eat_last qs h (cc) d)
eat_last (q ∷ qs) h eq (eat p d) = eat p (eat_last (q ∷ qs) h eq d)

-- A match read from the other end.
Matches-reverse : {ps hs : List Text} → Matches ps hs → Matches (reverse ps) (reverse hs)
Matches-reverse done = done
Matches-reverse (one {p} {h} {ps} {hs} c d) =
    rw (reverse-cons p ps, reverse-cons h hs)
      (Matches-append (p ∷ []) (h ∷ []) (Matches-reverse d) (one c done))
Matches-reverse (skip {p} {ps} {hs} e d) = rw reverse-cons (
    subst (Matches (reverse ps ++ p ∷ [])) (append-nil (reverse hs))
      (Matches-append (p ∷ []) [] (Matches-reverse d) (skip e done)))
Matches-reverse (eat {p} {h} {ps} {hs} e d) =
    rw (reverse-cons h hs) (eat_last (reverse ps) h (rw (reverse-cons, e)) (Matches-reverse d))

pub Matches-reverse_iff : (ps hs : List Text) → Matches (reverse ps) (reverse hs) ↔ Matches ps hs
Matches-reverse_iff ps hs =
    (λ d. rw (reverse-reverse, reverse-reverse) at (Matches-reverse d), Matches-reverse)
