-- ===== src/HostRouter/Dp/Laws.antt =====
-- `dp_host_matches` fills its table with the answers for the prefixes, and so decides `Matches`.
use scety.Prelude.{
  ℕ, zero, suc, ◌+◌, ◌-◌, ◌*◌, ◌<◌, ◌≤◌, ◌≡◌, refl, ap, ap₂, ◌∙◌, subst, sym, ◌↔◌, Bool, true,
  false, List, [], reverse, arith, length, get_or, set, replicate, take, length-set,
  length-replicate, get_or-replicate, get_or-set_self, get_or-set_ne, take_all, reverse-take-suc,
}
use native.Mathlib.Decide.{ℕ_discrete}
use scety.Text.{Text}
use scety.HostRouter.Labels.{Matches, Matches-reverse_iff}
use scety.HostRouter.Dp.Table.{cell, fill_row, fill_rows, dp_host_matches}
use scety.HostRouter.Dp.Spec.{table, table_iff}

-- A cell's row and column can be read off its place.
place_injective : (c a b i j : ℕ) → b < c → j < c → a * c + b ≡ i * c + j → (a ≡ i) × (b ≡ j)
place_injective c zero b zero j hb hj e = (refl, omega arith)
place_injective c zero b (suc i) j hb hj e = absurd (omega arith)
place_injective c (suc a) b zero j hb hj e = absurd (omega arith)
place_injective c (suc a) b (suc i) j hb hj e =
    let (p, q) = place_injective c a b i j hb hj (omega arith) in (ap suc p, q)

module _ (pattern_labels host_labels : List Text) where
  -- The answer for the first `i` pattern labels and the first `j` host labels.
  abbrev answer : ℕ → ℕ → Bool
  answer i j = table (reverse (take i pattern_labels)) (reverse (take j host_labels))

  abbrev columns : ℕ
  columns = length host_labels + 1

  -- All cells before row `i`, column `j` are filled.
  record Filled (i j : ℕ) (matches : List Bool) : Type 0 where
    size : length matches ≡ (length pattern_labels + 1) * columns
    cells :
        (a b : ℕ)
        → b < columns
        → a * columns + b < i * columns + j
        → get_or matches (a * columns + b) false ≡ answer a b

  -- The value that `cell` computes is the answer for its place.
  cell-answer :
      (i j : ℕ) (matches : List Bool)
      → i < length pattern_labels
      → j < columns
      → Filled (suc i) j matches
      → cell columns host_labels (get_or pattern_labels i []) (suc i) j matches ≡ answer (suc i) j
  unfolding cell table
  cell-answer i zero matches hi hj f =
      let e : suc i - 1 ≡ i = omega arith in
      rw (reverse-take-suc i pattern_labels [] hi, e)
        (ground (arith, f.cells i 0 (omega arith) (omega arith)))
  cell-answer i (suc j) matches hi hj f =
      let e : suc i - 1 ≡ i = omega arith in
      let d : suc j - 1 ≡ j = omega arith in
      rw
        (
          reverse-take-suc i pattern_labels [] hi,
          reverse-take-suc j host_labels [] (omega arith),
          e,
          d,
        )
        (ground (
          arith,
          reverse-take-suc i pattern_labels [] hi,
          reverse-take-suc j host_labels [] (omega arith),
          f.cells i (suc j) (omega arith) (omega arith),
          f.cells i j (omega arith) (omega arith),
          f.cells (suc i) j (omega arith) (omega arith),
        ))

  -- Writing the answer into the next place.
  Filled-set :
      (i j : ℕ) (matches : List Bool) (v : Bool)
      → i ≤ length pattern_labels
      → j < columns
      → v ≡ answer i j
      → Filled i j matches
      → Filled i (suc j) (set matches (i * columns + j) v)
  Filled-set i j matches v hi hj hv f = record {
    size = length-set matches (i * columns + j) v ∙ f.size;
    cells = λ a b hb h. elim (ℕ_discrete (i * columns + j) (a * columns + b)) [
      | yes e ↦
          let (p, q) = place_injective columns i j a b hj hb e in
          rw (← e) (
            get_or-set_self matches (i * columns + j) v false
              (rw f.size (place-lt (length pattern_labels) i j hi hj))
            ∙ hv
            ∙ ap₂ answer p q)
      | no n ↦
          get_or-set_ne matches (i * columns + j) (a * columns + b) v false n
          ∙ f.cells a b hb (omega arith)
    ];
  }
    where
      place-lt : (n i j : ℕ) → i ≤ n → j < columns → i * columns + j < (n + 1) * columns
      place-lt n i j p q = grind arith

  fill_row-Filled :
      (rounds i j : ℕ) (matches : List Bool)
      → i < length pattern_labels
      → rounds + j ≡ columns
      → Filled (suc i) j matches
      → Filled
          (suc i)
          columns
          (fill_row columns host_labels (get_or pattern_labels i []) rounds (suc i) j matches)
  unfolding fill_row
  fill_row-Filled zero i j matches hi e f =
      let q : j ≡ columns = omega arith in subst (λ k. Filled (suc i) k matches) q f
  fill_row-Filled (suc rounds) i j matches hi e f =
      fill_row-Filled rounds i (suc j) _ hi (omega arith) (
        Filled-set (suc i) j matches _ hi (omega arith) (cell-answer i j matches hi (omega arith) f)
          f)

  next_row : (i : ℕ) (matches : List Bool) → Filled i columns matches → Filled (suc i) 0 matches
  next_row i matches f = record { size = f.size; cells = λ a b hb h. f.cells a b hb (omega arith) }

  fill_rows-Filled :
      (rounds i : ℕ) (matches : List Bool)
      → rounds + i ≡ length pattern_labels
      → Filled i columns matches
      → Filled
          (length pattern_labels)
          columns
          (fill_rows columns pattern_labels host_labels rounds (suc i) matches)
  unfolding fill_rows
  fill_rows-Filled zero i matches e f =
      let q : i ≡ length pattern_labels = omega arith in subst (λ k. Filled k columns matches) q f
  fill_rows-Filled (suc rounds) i matches e f =
      let d : suc i - 1 ≡ i = omega arith in
      let r : suc (length host_labels) ≡ columns = omega arith in
      fill_rows-Filled rounds (suc i) _ (omega arith) (
        subst
          (λ k. Filled (suc i) columns (
            fill_row columns host_labels (get_or pattern_labels k []) (suc (length host_labels))
              (suc i) 0 matches))
          (sym d)
          (fill_row-Filled (suc (length host_labels)) i 0 matches (omega arith) (omega arith)
            (next_row i matches f)))

  abbrev cleared : List Bool
  cleared = replicate ((length pattern_labels + 1) * columns) false

  -- `matches.resize(needed, false); matches[0] = true` is the row of the empty pattern.
  first_cells :
      (a b : ℕ)
      → b < columns
      → a * columns + b < 0 * columns + columns
      → get_or (set cleared 0 true) (a * columns + b) false ≡ answer a b
  unfolding table
  first_cells zero zero hb h =
      let e : 0 * columns + 0 ≡ 0 = omega arith in
      rw e (
        get_or-set_self cleared 0 true false
          (rw (length-replicate ((length pattern_labels + 1) * columns) false) (grind arith)))
  first_cells zero (suc b) hb h =
      let e : 0 * columns + suc b ≡ suc b = omega arith in
      rw (reverse-take-suc b host_labels [] (omega arith), e)
        (get_or-set_ne cleared 0 (suc b) true false (λ q. cc)
          ∙ get_or-replicate ((length pattern_labels + 1) * columns) (suc b) false)
  first_cells (suc a) b hb h = absurd (grind arith)

  first_row : Filled 0 columns (set cleared 0 true)
  first_row = record {
    size =
        length-set cleared 0 true ∙ length-replicate ((length pattern_labels + 1) * columns) false;
    cells = first_cells;
  }

  -- The last cell holds the answer for the whole pattern and the whole host.
  dp_host_matches-table :
      dp_host_matches pattern_labels host_labels
      ≡ table (reverse pattern_labels) (reverse host_labels)
  unfolding dp_host_matches
  dp_host_matches-table =
      filled.cells (length pattern_labels) (length host_labels) (omega arith) (omega arith)
      ∙ ap₂ (λ ps hs. table (reverse ps) (reverse hs)) (take_all pattern_labels)
          (take_all host_labels)
    where
      filled : Filled (length pattern_labels) columns (
          fill_rows columns pattern_labels host_labels
            (length pattern_labels)
            1
            (set cleared 0 true))
      filled =
          fill_rows-Filled (length pattern_labels) 0 (set cleared 0 true) (omega arith) first_row

-- The table decides whether the pattern matches the host, for all patterns and hosts.
pub dp_host_matches-Matches :
    (pattern_labels host_labels : List Text)
    → (dp_host_matches pattern_labels host_labels ≡ true) ↔ Matches pattern_labels host_labels
dp_host_matches-Matches ps hs =
    let t = table_iff (reverse ps) (reverse hs) in
    let m = Matches-reverse_iff ps hs in
    (
      λ e. m.0 (t.0 (rw (← dp_host_matches-table ps hs) e)),
      λ d. rw (dp_host_matches-table ps hs) (t.1 (m.1 d)),
    )
