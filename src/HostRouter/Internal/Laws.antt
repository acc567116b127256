-- ===== src/HostRouter/Internal/Laws.antt =====
-- The two matchers accept exactly the hosts that the pattern describes.
use scety.Prelude.{
  ℕ, zero, suc, ◌+◌, ◌-◌, ◌≤◌, ◌≡◌, refl, ap, ap₂, sym, ◌∙◌, ◌↔◌, true, List, [], ◌∷◌, ◌++◌, arith,
  length, drop, take, All, append_assoc, append-nil, length-append, length-drop, take-append-drop,
  drop-append,
}
use scety.Text.{Text, text_eq_iff, text_eq_self}
use scety.HostRouter.Labels.{star, double_star, Matches}
use scety.HostRouter.Literal.{
  Literal, Matches-Literal_prefix, Matches-star, Matches-double_star_inv, Matches-around_star,
  Matches-around_double_star,
}
use scety.HostRouter.Internal.{
  zip_eq, matches_single_internal_wildcard, matches_internal_double_star,
}

zip_eq-append : (ps hs : List Text) → zip_eq ps (ps ++ hs) ≡ true
unfolding zip_eq
zip_eq-append [] hs = refl
zip_eq-append (p ∷ ps) hs = ground (arith, text_eq_self p, zip_eq-append ps hs)

-- A zip that reaches the end of the shorter list compares a prefix.
zip_eq-prefix :
    (ps hs : List Text)
    → length ps ≤ length hs
    → zip_eq ps hs ≡ true
    → hs ≡ ps ++ drop (length ps) hs
unfolding zip_eq
zip_eq-prefix [] hs l h = refl
zip_eq-prefix (p ∷ ps) [] l h = absurd (omega arith)
zip_eq-prefix (p ∷ ps) (x ∷ hs) l h =
    let e = zip_eq-prefix ps hs (omega arith) (ground arith) in
    ap₂ ◌∷◌ (ground (arith, text_eq_iff p x)) e

nil_of_length {ℓ} : {A : Type ℓ} (xs : List A) → length xs ≡ 0 → xs ≡ []
nil_of_length [] h = refl
nil_of_length (x ∷ xs) h = absurd (omega arith)

zip_eq-all : (ps hs : List Text) → length ps ≡ length hs → zip_eq ps hs ≡ true → hs ≡ ps
zip_eq-all ps hs l h =
    zip_eq-prefix ps hs (omega arith) h
    ∙ ap (◌++◌ ps)
        (nil_of_length (drop (length ps) hs) (omega (arith, length-drop {0} (length ps) hs)))
    ∙ append-nil ps

drop-cons {ℓ} :
    {A : Type ℓ} (n : ℕ) (xs : List A)
    → suc n ≤ length xs
    → (x : A) × (drop n xs ≡ x ∷ drop (n + 1) xs)
drop-cons n [] h = absurd (omega arith)
drop-cons zero (x ∷ xs) h = (x, refl)
drop-cons (suc n) (x ∷ xs) h =
    let (y, e) = drop-cons n xs (omega arith) in
    let q : suc n + 1 ≡ suc (n + 1) = omega arith in (y, rw q e)

-- What stands between two places.
drop-split {ℓ} :
    {A : Type ℓ} (a b : ℕ) (xs : List A) → a ≤ b → (ms : List A) × (drop a xs ≡ ms ++ drop b xs)
drop-split zero b xs h = (take b xs, sym (take-append-drop b xs))
drop-split (suc a) zero xs h = absurd (omega arith)
drop-split (suc a) (suc b) [] h = ([], refl)
drop-split (suc a) (suc b) (x ∷ xs) h = drop-split a b xs (omega arith)

module _ (prefix_labels suffix_labels host_labels : List Text) where
  single_sound :
      matches_single_internal_wildcard prefix_labels suffix_labels host_labels ≡ true
      → (h : Text) × (host_labels ≡ prefix_labels ++ h ∷ suffix_labels)
  unfolding matches_single_internal_wildcard
  single_sound m =
      let l : length prefix_labels + 1 + length suffix_labels ≡ length host_labels = ground arith in
      let e = zip_eq-prefix prefix_labels host_labels (omega arith) (ground arith) in
      let (h, d) = drop-cons (length prefix_labels) host_labels (omega arith) in
      let s =
        zip_eq-all suffix_labels (drop (length prefix_labels + 1) host_labels)
          (omega (arith, length-drop {0} (length prefix_labels + 1) host_labels)) (ground arith) in
      (h, cc)

  single_complete :
      (h : Text)
      → host_labels ≡ prefix_labels ++ h ∷ suffix_labels
      → matches_single_internal_wildcard prefix_labels suffix_labels host_labels ≡ true
  unfolding matches_single_internal_wildcard zip_eq
  single_complete h e = ground (
    arith,
    zip_eq-append prefix_labels (h ∷ suffix_labels),
    zip_eq-append suffix_labels [],
    append-nil suffix_labels,
    length-append prefix_labels (h ∷ suffix_labels),
    drop-append (prefix_labels ++ h ∷ []) suffix_labels,
    append_assoc prefix_labels (h ∷ []) suffix_labels,
    length-append prefix_labels (h ∷ []),
  )

  double_sound :
      matches_internal_double_star prefix_labels suffix_labels host_labels ≡ true
      → (mid : List Text) × (host_labels ≡ prefix_labels ++ (mid ++ suffix_labels))
  unfolding matches_internal_double_star
  double_sound m =
      let end : ℕ = length host_labels - length suffix_labels in
      let l : length prefix_labels + length suffix_labels ≤ length host_labels = ground arith in
      let e = zip_eq-prefix prefix_labels host_labels (omega arith) (ground arith) in
      let s =
        zip_eq-all suffix_labels (drop end host_labels)
          (omega (arith, length-drop {0} end host_labels)) (ground arith) in
      let (mid, d) = drop-split (length prefix_labels) end host_labels (omega arith) in (mid, cc)

  double_complete :
      (mid : List Text)
      → host_labels ≡ prefix_labels ++ (mid ++ suffix_labels)
      → matches_internal_double_star prefix_labels suffix_labels host_labels ≡ true
  unfolding matches_internal_double_star
  double_complete mid e =
      let n = length-append prefix_labels (mid ++ suffix_labels) in
      let k = length-append mid suffix_labels in
      let j = length-append prefix_labels mid in
      let t = ap length e in
      let q : length host_labels - length suffix_labels ≡ length (prefix_labels ++ mid) =
        omega arith in
      let s : drop (length host_labels - length suffix_labels) host_labels ≡ suffix_labels =
        rw (q, e, ← append_assoc prefix_labels mid suffix_labels)
          (drop-append (prefix_labels ++ mid) suffix_labels) in
      ground (
        arith,
        zip_eq-append prefix_labels (mid ++ suffix_labels),
        zip_eq-append suffix_labels [],
        append-nil suffix_labels,
      )

  -- The matcher for one inner `*` accepts a host exactly when the labels around the star are the
  -- given ones and one label stands between, if those labels hold no wildcard.
  pub matches_single_internal_wildcard-Matches :
      All Literal prefix_labels
      → All Literal suffix_labels
      → (matches_single_internal_wildcard prefix_labels suffix_labels host_labels ≡ true)
        ↔ Matches (prefix_labels ++ star ∷ suffix_labels) host_labels
  matches_single_internal_wildcard-Matches lp ls = (
    λ m. let (h, e) = single_sound m in rw e (Matches-around_star prefix_labels suffix_labels h),
    λ d.
        let (gs, e, d') =
          Matches-Literal_prefix prefix_labels (star ∷ suffix_labels) host_labels lp d in
        let (h, e') = Matches-star suffix_labels gs ls d' in single_complete h (cc),
  )

  -- The matcher for one inner `**` accepts a host exactly when it begins and ends with the labels
  -- around the stars, if those labels hold no wildcard.
  pub matches_internal_double_star-Matches :
      All Literal prefix_labels
      → All Literal suffix_labels
      → (matches_internal_double_star prefix_labels suffix_labels host_labels ≡ true)
        ↔ Matches (prefix_labels ++ double_star ∷ suffix_labels) host_labels
  matches_internal_double_star-Matches lp ls = (
    λ m.
        let (mid, e) = double_sound m in
        rw e (Matches-around_double_star prefix_labels mid suffix_labels),
    λ d.
        let (gs, e, d') =
          Matches-Literal_prefix prefix_labels (double_star ∷ suffix_labels) host_labels lp d in
        let (mid, e') = Matches-double_star_inv suffix_labels gs ls refl d' in
        double_complete mid (cc),
  )

  -- Without conditions on the labels, an accepted host still matches.
  pub matches_single_internal_wildcard_sound :
      matches_single_internal_wildcard prefix_labels suffix_labels host_labels ≡ true
      → Matches (prefix_labels ++ star ∷ suffix_labels) host_labels
  matches_single_internal_wildcard_sound m =
      let (h, e) = single_sound m in rw e (Matches-around_star prefix_labels suffix_labels h)

  pub matches_internal_double_star_sound :
      matches_internal_double_star prefix_labels suffix_labels host_labels ≡ true
      → Matches (prefix_labels ++ double_star ∷ suffix_labels) host_labels
  matches_internal_double_star_sound m =
      let (mid, e) = double_sound m in
      rw e (Matches-around_double_star prefix_labels mid suffix_labels)
