-- ===== src/HostRouter/Dp/InRange.antt =====
-- The indices of `dp_host_matches`: the same loops, where an index out of range is a panic.
use scety.Prelude.{
  ℕ, zero, suc, ◌+◌, ◌-◌, ◌*◌, ◌<◌, ◌≤◌, ◌≡◌, refl, ap, ◌∙◌, Bool, true, false, ◌&&◌, ◌||◌, Option,
  none, some, List, [], ◌∷◌, arith, ltb, if◌then◌else◌, length, get_or, get_elem?, set, replicate,
  length-set, length-replicate,
}
use scety.Text.{Text, text_eq}
use scety.HostRouter.Labels.{star, double_star}
use scety.HostRouter.Dp.Table.{cell, fill_row, fill_rows, dp_host_matches}

-- `matches[index] = value`; `none` is a panic.
abbrev set_checked : List Bool → ℕ → Bool → Option (List Bool)
set_checked matches index value =
    if ltb index (length matches) then some (set matches index value) else none

abbrev and_then : {A B : Type 0} → Option A → (A → Option B) → Option B
and_then none f = none
and_then (some a) f = f a

and_then-some :
    {A B : Type 0} {o : Option A} {a : A} (f : A → Option B) {r : Option B}
    → o ≡ some a
    → f a ≡ r
    → and_then o f ≡ r
and_then-some f e q = ap (λ o. and_then o f) e ∙ q

unfoldable cell_checked : ℕ → List Text → Text → ℕ → ℕ → List Bool → Option Bool
cell_checked columns host_labels current_pattern_label pattern_pos host_pos matches =
    if text_eq current_pattern_label double_star
    then and_then (get_elem? matches ((pattern_pos - 1) * columns + host_pos)) (λ skip_this_label.
      if ltb 0 host_pos
      then and_then (get_elem? matches (pattern_pos * columns + (host_pos - 1)))
          (λ eat_one_more_label. some (skip_this_label || eat_one_more_label))
      else some skip_this_label)
    else if ltb 0 host_pos
    then and_then (get_elem? host_labels (host_pos - 1)) (λ current_host_label.
      and_then (get_elem? matches ((pattern_pos - 1) * columns + (host_pos - 1))) (λ previous.
        some (
          previous
          && (text_eq current_pattern_label star
              || text_eq current_pattern_label current_host_label))))
    else some false

unfoldable fill_row_checked :
    ℕ → List Text → Text → (rounds pattern_pos host_pos : ℕ) → List Bool → Option (List Bool)
unfolding cell_checked
fill_row_checked columns host_labels label zero pattern_pos host_pos matches = some matches
fill_row_checked columns host_labels label (suc rounds) pattern_pos host_pos matches =
    and_then (cell_checked columns host_labels label pattern_pos host_pos matches) (λ value.
      and_then (set_checked matches (pattern_pos * columns + host_pos) value) (λ filled.
        fill_row_checked columns host_labels label rounds pattern_pos (suc host_pos) filled))

unfoldable fill_rows_checked :
    ℕ → List Text → List Text → (rounds pattern_pos : ℕ) → List Bool → Option (List Bool)
unfolding fill_row_checked
fill_rows_checked columns pattern_labels host_labels zero pattern_pos matches = some matches
fill_rows_checked columns pattern_labels host_labels (suc rounds) pattern_pos matches =
    and_then (get_elem? pattern_labels (pattern_pos - 1)) (λ label.
      and_then
        (fill_row_checked columns host_labels label (suc (length host_labels)) pattern_pos 0
          matches)
        (λ filled.
          fill_rows_checked columns pattern_labels host_labels rounds (suc pattern_pos) filled))

unfoldable pub dp_host_matches_checked : List Text → List Text → Option Bool
unfolding fill_rows_checked
dp_host_matches_checked pattern_labels host_labels =
    let columns = length host_labels + 1 in
    let needed = (length pattern_labels + 1) * columns in
    and_then (set_checked (replicate needed false) 0 true) (λ matches.
      and_then
        (fill_rows_checked columns pattern_labels host_labels (length pattern_labels) 1 matches)
        (λ filled. get_elem? filled (length pattern_labels * columns + length host_labels)))

get_elem?-get_or :
    {A : Type 0} (xs : List A) (i : ℕ) (d : A)
    → i < length xs
    → get_elem? xs i ≡ some (get_or xs i d)
get_elem?-get_or [] i d h = absurd (omega arith)
get_elem?-get_or (x ∷ xs) zero d h = refl
get_elem?-get_or (x ∷ xs) (suc i) d h = get_elem?-get_or xs i d (omega arith)

-- A place in a row of the table is in the table.
place-lt : (c a b p : ℕ) → b < c → a ≤ p → a * c + b < (p + 1) * c
place-lt c zero b zero hb h = omega arith
place-lt c zero b (suc p) hb h = omega (arith, place-lt c zero b p hb (omega arith))
place-lt c (suc a) b zero hb h = absurd (omega arith)
place-lt c (suc a) b (suc p) hb h = omega (arith, place-lt c a b p hb (omega arith))

module _ (pattern_labels host_labels : List Text) where
  abbrev columns : ℕ
  columns = length host_labels + 1

  abbrev needed : ℕ
  needed = (length pattern_labels + 1) * columns

  cell-in_range :
      (label : Text) (i j : ℕ) (matches : List Bool)
      → i < length pattern_labels
      → j < columns
      → length matches ≡ needed
      → cell_checked columns host_labels label (suc i) j matches
        ≡ some (cell columns host_labels label (suc i) j matches)
  unfolding cell_checked cell
  cell-in_range label i zero matches hi hj size =
      let e : suc i - 1 ≡ i = omega arith in
      let above =
        get_elem?-get_or matches (i * columns + 0) false
          (omega (arith, size, place-lt columns i 0 (length pattern_labels) hj (omega arith))) in
      rw e (ground (arith, above))
  cell-in_range label i (suc j) matches hi hj size =
      let e : suc i - 1 ≡ i = omega arith in
      let d : suc j - 1 ≡ j = omega arith in
      let above = get_elem?-get_or matches (i * columns + suc j) false (
        omega (arith, size, place-lt columns i (suc j) (length pattern_labels) hj (omega arith))) in
      let beside = get_elem?-get_or matches (suc i * columns + j) false (
        omega (
          arith,
          size,
          place-lt columns (suc i) j (length pattern_labels) (omega arith) (omega arith),
        )) in
      let across = get_elem?-get_or matches (i * columns + j) false (
        omega (
          arith,
          size,
          place-lt columns i j (length pattern_labels) (omega arith) (omega arith),
        )) in
      let host_label = get_elem?-get_or host_labels j [] (omega arith) in
      rw (e, d) (ground (arith, above, beside, across, host_label))

  set-in_range :
      (matches : List Bool) (index : ℕ) (value : Bool)
      → index < length matches
      → set_checked matches index value ≡ some (set matches index value)
  set-in_range matches index value h = ground (arith, h)

  fill_row-in_range :
      (label : Text) (rounds i j : ℕ) (matches : List Bool)
      → i < length pattern_labels
      → j + rounds ≤ columns
      → length matches ≡ needed
      → (fill_row_checked columns host_labels label rounds (suc i) j matches
          ≡ some (fill_row columns host_labels label rounds (suc i) j matches))
        × (length (fill_row columns host_labels label rounds (suc i) j matches) ≡ needed)
  unfolding fill_row_checked fill_row
  fill_row-in_range label zero i j matches hi hj size = (refl, size)
  fill_row-in_range label (suc rounds) i j matches hi hj size =
      let value = cell columns host_labels label (suc i) j matches in
      let place : suc i * columns + j < length matches = omega (
        arith,
        size,
        place-lt columns (suc i) j (length pattern_labels) (omega arith) (omega arith),
      ) in
      let (rest, same) =
        fill_row-in_range label rounds i (suc j) (set matches (suc i * columns + j) value) hi
          (omega arith) (length-set matches (suc i * columns + j) value ∙ size) in
      (
        rw
            (
              fill_row_checked,
              cell-in_range label i j matches hi (omega arith) size,
              set-in_range matches (suc i * columns + j) value place,
            )
            rest,
        same,
      )

  fill_rows-in_range :
      (rounds i : ℕ) (matches : List Bool)
      → i + rounds ≤ length pattern_labels
      → length matches ≡ needed
      → (fill_rows_checked columns pattern_labels host_labels rounds (suc i) matches
          ≡ some (fill_rows columns pattern_labels host_labels rounds (suc i) matches))
        × (length (fill_rows columns pattern_labels host_labels rounds (suc i) matches) ≡ needed)
  unfolding fill_rows_checked fill_rows
  fill_rows-in_range zero i matches h size = (refl, size)
  fill_rows-in_range (suc rounds) i matches h size =
      let label = get_or pattern_labels (suc i - 1) [] in
      let (row, row_size) =
        fill_row-in_range label (suc (length host_labels)) i 0 matches (omega arith) (omega arith)
          size in
      let (rest, same) =
        fill_rows-in_range rounds (suc i)
          (fill_row columns host_labels label (suc (length host_labels)) (suc i) 0 matches)
          (omega arith) row_size in
      let named = get_elem?-get_or pattern_labels (suc i - 1) [] (omega arith) in
      let next_rows : List Bool → Option (List Bool) = λ filled.
        fill_rows_checked columns pattern_labels host_labels rounds (suc (suc i)) filled in
      let this_row : Text → Option (List Bool) = λ label.
        and_then
          (fill_row_checked columns host_labels label (suc (length host_labels)) (suc i) 0 matches)
          next_rows in
      (and_then-some this_row named (and_then-some next_rows row rest), same)

-- For all labels of a pattern and of a host, no index of `dp_host_matches` is out of range: with each
-- access checked, the function does not panic, and its answer is the same.
pub dp_host_matches-in_range :
    (pattern_labels host_labels : List Text)
    → dp_host_matches_checked pattern_labels host_labels
      ≡ some (dp_host_matches pattern_labels host_labels)
unfolding dp_host_matches_checked dp_host_matches
dp_host_matches-in_range ps hs =
    let c : ℕ = length hs + 1 in
    let cells : List Bool = replicate ((length ps + 1) * c) false in
    let size : length cells ≡ (length ps + 1) * c = length-replicate ((length ps + 1) * c) false in
    let first : 0 < length cells =
      omega (arith, size, place-lt c 0 0 (length ps) (omega arith) (omega arith)) in
    let (rows, rows_size) =
      fill_rows-in_range ps hs (length ps) 0 (set cells 0 true) (omega arith)
        (length-set cells 0 true ∙ size) in
    let filled : List Bool = fill_rows c ps hs (length ps) 1 (set cells 0 true) in
    let last = place-lt c (length ps) (length hs) (length ps) (omega arith) (omega arith) in
    rw (dp_host_matches_checked, set-in_range ps hs cells 0 true first, rows)
      (get_elem?-get_or filled (length ps * c + length hs) false (omega (arith, rows_size, last)))
