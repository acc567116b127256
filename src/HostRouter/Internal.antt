-- ===== src/HostRouter/Internal.antt =====
-- core/host_router.rs, `matches_single_internal_wildcard` and `matches_internal_double_star`: a
-- pattern that is a list of labels, one wildcard, and another list of labels.
use scety.Prelude.{
  ◌+◌, ◌-◌, Bool, true, false, not, ◌&&◌, List, [], ◌∷◌, if◌then◌else◌, length, drop, ltb, ◌==◌,
}
use scety.Text.{Text, text_eq}
pub mod Laws

-- `a.iter().zip(b.iter()).all(|(expected, actual)| expected == actual)`
unfoldable pub zip_eq : List Text → List Text → Bool
zip_eq [] bs = true
zip_eq (_ ∷ _) [] = true
zip_eq (a ∷ as') (b ∷ bs) = text_eq a b && zip_eq as' bs

unfoldable pub matches_single_internal_wildcard : List Text → List Text → List Text → Bool
matches_single_internal_wildcard prefix_labels suffix_labels host_labels =
    if not (length prefix_labels + 1 + length suffix_labels == length host_labels)
    then false
    else (zip_eq prefix_labels host_labels
        && zip_eq suffix_labels (drop (length prefix_labels + 1) host_labels))

unfoldable pub matches_internal_double_star : List Text → List Text → List Text → Bool
matches_internal_double_star prefix_labels suffix_labels host_labels =
    let start = length prefix_labels in
    let end = length host_labels - length suffix_labels in
    if ltb (length host_labels) (length prefix_labels + length suffix_labels)
    then false
    else if ltb end start
    then false
    else (zip_eq prefix_labels host_labels && zip_eq suffix_labels (drop end host_labels))
