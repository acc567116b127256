-- ===== src/HostRouter/Dp/Spec.antt =====
-- What the cells of the table stand for: a decision procedure for `Matches` by recursion on both
-- lists, which the table evaluates on the reversed prefixes.
use scety.Prelude.{
  ◌≡◌, refl, ◌↔◌, inl, inr, Bool, true, false, ◌&&◌, ◌||◌, List, [], ◌∷◌, arith, if◌then◌else◌,
  Bool-cases,
}
use scety.Text.{Text, text_eq, text_eq_iff}
use scety.HostRouter.Labels.{double_star, covers, Matches, done, one, skip, eat}

unfoldable pub table : List Text → List Text → Bool
table [] [] = true
table [] (_ ∷ _) = false
table (p ∷ ps) [] = text_eq p double_star && table ps []
table (p ∷ ps) (h ∷ hs) =
    if text_eq p double_star
    then (table ps (h ∷ hs) || table (p ∷ ps) hs)
    else (table ps hs && covers p h)

-- A `**` more does no harm.
table-skip :
    (p : Text) (ps hs : List Text) → p ≡ double_star → table ps hs ≡ true → table (p ∷ ps) hs ≡ true
unfolding table
table-skip p ps [] e h = ground (arith, text_eq_iff p double_star)
table-skip p ps (x ∷ hs) e h = ground (arith, text_eq_iff p double_star)

table_complete : {ps hs : List Text} → Matches ps hs → table ps hs ≡ true
unfolding table
table_complete done = refl
table_complete (one {p} {h} {ps} {hs} c d) = elim (Bool-cases (text_eq p double_star)) [
  | inl e ↦ ground (arith, table-skip p ps hs ((text_eq_iff p double_star).0 e) (table_complete d))
  | inr e ↦ ground (arith, table_complete d)
]
table_complete (skip {p} {ps} {hs} e d) = table-skip p ps hs e (table_complete d)
table_complete (eat {p} {h} {ps} {hs} e d) =
    ground (arith, text_eq_iff p double_star, table_complete d)

table_sound : (ps hs : List Text) → table ps hs ≡ true → Matches ps hs
unfolding table
table_sound [] [] h = done
table_sound [] (x ∷ hs) h = absurd (cc)
table_sound (p ∷ ps) [] h =
    skip (ground (arith, text_eq_iff p double_star)) (table_sound ps [] (ground arith))
table_sound (p ∷ ps) (x ∷ hs) h = elim (Bool-cases (text_eq p double_star)) [
  | inl e ↦ elim (Bool-cases (table ps (x ∷ hs))) [
    | inl t ↦ skip ((text_eq_iff p double_star).0 e) (table_sound ps (x ∷ hs) t)
    | inr f ↦ eat ((text_eq_iff p double_star).0 e) (table_sound (p ∷ ps) hs (ground arith))
  ]
  | inr e ↦ one (ground arith) (table_sound ps hs (ground arith))
]

pub table_iff : (ps hs : List Text) → (table ps hs ≡ true) ↔ Matches ps hs
table_iff ps hs = (table_sound ps hs, table_complete)
