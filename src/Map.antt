-- ===== src/Map.antt =====
-- `HashMap<String, V>` as an association list: `get`, `contains_key`, `insert`, `extend`, `keys`.
-- The order of the list stands for the map's iteration order, which Rust leaves open.
use scety.Prelude.{
  ◌≡◌, refl, ◌⊎◌, inl, inr, Bool, true, false, Option, none, some, List, [], ◌∷◌, arith,
  if◌then◌else◌, Bool-cases,
}
use scety.Text.{Text, text_eq, text_eq_iff}

abbrev pub Map {ℓ} : Type ℓ → Type ℓ
Map V = List (Text × V)

module _ {ℓ} {V : Type ℓ} where
  unfoldable pub get : Text → Map V → Option V
  get k [] = none
  get k ((j, v) ∷ m) = if text_eq j k then some v else get k m

  unfoldable pub contains_key : Text → Map V → Bool
  contains_key k [] = false
  contains_key k ((j, v) ∷ m) = if text_eq j k then true else contains_key k m

  unfoldable pub insert : Text → V → Map V → Map V
  insert k v [] = (k, v) ∷ []
  insert k v ((j, w) ∷ m) = if text_eq j k then (j, v) ∷ m else (j, w) ∷ insert k v m

  unfoldable pub extend : Map V → Map V → Map V
  extend m [] = m
  extend m ((k, v) ∷ more) = extend (insert k v m) more

  unfoldable pub keys : Map V → List Text
  keys [] = []
  keys ((k, v) ∷ m) = k ∷ keys m

  pub get-insert :
      (k j : Text) (v : V) (m : Map V)
      → get j (insert k v m) ≡ (if text_eq k j then some v else get j m)
  unfolding get insert
  get-insert k j v [] = refl
  get-insert k j v ((i, w) ∷ m) =
      ground (arith, text_eq_iff k j, text_eq_iff i k, text_eq_iff i j, get-insert k j v m)

  -- A lookup after an insertion finds the new value, or what was there before.
  pub get-insert_cases :
      (k j : Text) (v : V) (m : Map V) {w : V}
      → get j (insert k v m) ≡ some w
      → ((k ≡ j) × (v ≡ w)) ⊎ (get j m ≡ some w)
  get-insert_cases k j v m e = ground (arith, get-insert k j v m, text_eq_iff k j)

  pub get-insert_self : (k : Text) (v : V) (m : Map V) → get k (insert k v m) ≡ some v
  get-insert_self k v m = ground (arith, get-insert k k v m, text_eq_iff k k)

  -- A key that was there is there after an insertion.
  pub get-insert_keeps :
      (k j : Text) (v : V) (m : Map V) {w : V}
      → get j m ≡ some w
      → (u : V) × (get j (insert k v m) ≡ some u)
  get-insert_keeps k j v m {w} e =
      ((if text_eq k j then v else w), ground (arith, get-insert k j v m))

  pub contains_key-get :
      (k : Text) (m : Map V) → contains_key k m ≡ true → (v : V) × (get k m ≡ some v)
  unfolding get contains_key
  contains_key-get k [] h = absurd (cc)
  contains_key-get k ((j, v) ∷ m) h = elim (Bool-cases (text_eq j k)) [
    | inl e ↦ (v, rw e)
    | inr e ↦ rw e (contains_key-get k m (rw e at h))
  ]
