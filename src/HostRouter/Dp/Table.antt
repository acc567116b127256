-- ===== src/HostRouter/Dp/Table.antt =====
-- The loops of `dp_host_matches`. A loop `for i in a..=b` recurs on the rounds that are left. The
-- scratch buffer `matches` is resized to `needed` cells, so what it held before is gone.
use scety.Prelude.{
  ℕ, zero, suc, ◌+◌, ◌-◌, ◌*◌, Bool, true, false, ◌&&◌, ◌||◌, List, [], ltb, if◌then◌else◌, length,
  get_or, set, replicate,
}
use scety.Text.{Text, text_eq}
use scety.HostRouter.Labels.{star, double_star}

-- The value assigned to `matches[index]`.
unfoldable pub cell : ℕ → List Text → Text → ℕ → ℕ → List Bool → Bool
cell columns host_labels current_pattern_label pattern_pos host_pos matches =
    if text_eq current_pattern_label double_star
    then (get_or matches ((pattern_pos - 1) * columns + host_pos) false
        || (ltb 0 host_pos && get_or matches (pattern_pos * columns + (host_pos - 1)) false))
    else if ltb 0 host_pos
    then (get_or matches ((pattern_pos - 1) * columns + (host_pos - 1)) false
        && (text_eq current_pattern_label star
            || text_eq current_pattern_label (get_or host_labels (host_pos - 1) [])))
    else false

-- `for host_pos in 0..=host_labels.len()`
unfoldable pub fill_row :
    ℕ → List Text → Text → (rounds pattern_pos host_pos : ℕ) → List Bool → List Bool
unfolding cell
fill_row columns host_labels label zero pattern_pos host_pos matches = matches
fill_row columns host_labels label (suc rounds) pattern_pos host_pos matches =
    fill_row columns host_labels label rounds pattern_pos (suc host_pos) (
      set matches (pattern_pos * columns + host_pos)
        (cell columns host_labels label pattern_pos host_pos matches))

-- `for pattern_pos in 1..=pattern_labels.len()`
unfoldable pub fill_rows :
    ℕ → List Text → List Text → (rounds pattern_pos : ℕ) → List Bool → List Bool
unfolding fill_row
fill_rows columns pattern_labels host_labels zero pattern_pos matches = matches
fill_rows columns pattern_labels host_labels (suc rounds) pattern_pos matches =
    fill_rows columns pattern_labels host_labels rounds (suc pattern_pos) (
      fill_row columns host_labels (get_or pattern_labels (pattern_pos - 1) [])
        (suc (length host_labels)) pattern_pos 0 matches)

unfoldable pub dp_host_matches : List Text → List Text → Bool
unfolding fill_rows
dp_host_matches pattern_labels host_labels =
    let columns = length host_labels + 1 in
    let needed = (length pattern_labels + 1) * columns in
    let matches = set (replicate needed false) 0 true in
    let filled = fill_rows columns pattern_labels host_labels (length pattern_labels) 1 matches in
    get_or filled (length pattern_labels * columns + length host_labels) false
