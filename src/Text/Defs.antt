-- ===== src/Text/Defs.antt =====
-- The methods of `str` themselves, and the meaning of the equality test.
use Prim.Native.Char.{code}
use Prim.Native.String.{String}
use scety.Prelude.{
  ℕ, ◌+◌, ◌≡◌, refl, ◌↔◌, ◌⊎◌, inl, inr, Bool, true, false, ◌&&◌, ◌||◌, Option, none, some, List,
  [], ◌∷◌, ◌++◌, reverse, arith, leb, ◌==◌, if◌then◌else◌, Bool-cases,
}

abbrev pub Text : Type 0
Text = List ℕ

-- The code points of a literal.
abbrev pub codes : String → Text
codes String.[] = []
codes (String.◌∷◌ c s) = code c ∷ codes s

-- `a == b`.
unfoldable pub text_eq : Text → Text → Bool
text_eq [] [] = true
text_eq [] (_ ∷ _) = false
text_eq (_ ∷ _) [] = false
text_eq (x ∷ a) (y ∷ b) = x == y && text_eq a b

text_eq→eq : (a b : Text) → text_eq a b ≡ true → a ≡ b
unfolding text_eq
text_eq→eq [] [] h = refl
text_eq→eq [] (y ∷ b) h = ground arith
text_eq→eq (x ∷ a) [] h = ground arith
text_eq→eq (x ∷ a) (y ∷ b) h = ground (arith, text_eq→eq a b)

pub text_eq_self : (a : Text) → text_eq a a ≡ true
unfolding text_eq
text_eq_self [] = refl
text_eq_self (x ∷ a) = ground (arith, text_eq_self a)

pub text_eq_iff : (a b : Text) → (text_eq a b ≡ true) ↔ (a ≡ b)
text_eq_iff a b = (text_eq→eq a b, λ e. subst_eq e)
  where
    subst_eq : a ≡ b → text_eq a b ≡ true
    subst_eq e = ground (arith, text_eq_self a)

-- Two texts are equal, or the test says that they are not.
pub text_eq_cases : (a b : Text) → (a ≡ b) ⊎ (text_eq a b ≡ false)
text_eq_cases a b = elim (Bool-cases (text_eq a b)) [
  | inl e ↦ inl (text_eq→eq a b e)
  | inr e ↦ inr e
]

pub text_eq-false : (a b : Text) → ¬ (a ≡ b) → text_eq a b ≡ false
text_eq-false a b h = elim (text_eq_cases a b) [ inl e ↦ absurd (h e) | inr e ↦ e ]

-- Puts a character before the first word.
abbrev pub cons_head : ℕ → List Text → List Text
cons_head x [] = (x ∷ []) ∷ []
cons_head x (w ∷ ws) = (x ∷ w) ∷ ws

-- `s.split(c)`: always at least one word.
unfoldable pub split : ℕ → Text → List Text
split c [] = [] ∷ []
split c (x ∷ s) = let ws = split c s in if x == c then [] ∷ ws else cons_head x ws

abbrev pub cons_first : ℕ → Option (Text × Text) → Option (Text × Text)
cons_first x none = none
cons_first x (some (a, b)) = some (x ∷ a, b)

-- `s.split_once(c)`: at the first `c`.
unfoldable pub split_once : ℕ → Text → Option (Text × Text)
split_once c [] = none
split_once c (x ∷ s) =
    let rest = split_once c s in if x == c then some ([], s) else cons_first x rest

abbrev pub or_here : Bool → Text → Option (Text × Text) → Option (Text × Text)
or_here true s none = some ([], s)
or_here false s none = none
or_here b s (some p) = some p

-- `s.rsplit_once(c)`: at the last `c`.
unfoldable pub rsplit_once : ℕ → Text → Option (Text × Text)
rsplit_once c [] = none
rsplit_once c (x ∷ s) = or_here (x == c) s (cons_first x (rsplit_once c s))

-- `ws.join(".")`, for a separator of one character.
unfoldable pub join : ℕ → List Text → Text
join c [] = []
join c (w ∷ []) = w
join c (w ∷ v ∷ ws) = w ++ c ∷ join c (v ∷ ws)

-- `s.strip_prefix(p)`.
unfoldable pub strip_prefix : Text → Text → Option Text
strip_prefix [] s = some s
strip_prefix (p ∷ ps) [] = none
strip_prefix (p ∷ ps) (x ∷ s) = if p == x then strip_prefix ps s else none

-- `s.starts_with(p)`.
unfoldable pub starts_with : Text → Text → Bool
starts_with [] s = true
starts_with (p ∷ ps) [] = false
starts_with (p ∷ ps) (x ∷ s) = p == x && starts_with ps s

-- `s.ends_with(p)`.
unfoldable pub ends_with : Text → Text → Bool
unfolding starts_with
ends_with p s = starts_with (reverse p) (reverse s)

-- `s.trim_start_matches(p)`, for a prefix `p ∷ ps`; each round drops at least a character, so the
-- fuel is the text's own length.
strip_all : List ℕ → Text → Text → Text
unfolding strip_prefix
strip_all [] p s = s
strip_all (_ ∷ fuel) p s = elim (strip_prefix p s) [ none ↦ s | some rest ↦ strip_all fuel p rest ]

unfoldable pub trim_start_matches : Text → Text → Text
unfolding strip_all
trim_start_matches p s = strip_all s p s

-- `c.to_ascii_lowercase()`.
unfoldable pub to_ascii_lowercase : ℕ → ℕ
to_ascii_lowercase c = if leb b'A' c && leb c b'Z' then c + 32 else c

-- `a.eq_ignore_ascii_case(b)`, on texts and on bytes.
unfoldable pub eq_ignore_ascii_case : Text → Text → Bool
unfolding to_ascii_lowercase
eq_ignore_ascii_case [] [] = true
eq_ignore_ascii_case [] (_ ∷ _) = false
eq_ignore_ascii_case (_ ∷ _) [] = false
eq_ignore_ascii_case (x ∷ a) (y ∷ b) =
    to_ascii_lowercase x == to_ascii_lowercase y && eq_ignore_ascii_case a b

-- `c.is_whitespace()`: Unicode's `White_Space`.
unfoldable pub is_whitespace : ℕ → Bool
is_whitespace c =
    leb 9 c && leb c 13
    || c == 32
    || c == 0x85
    || c == 0xA0
    || c == 0x1680
    || leb 0x2000 c && leb c 0x200A
    || c == 0x2028
    || c == 0x2029
    || c == 0x202F
    || c == 0x205F
    || c == 0x3000

-- `s.trim_start()` and `s.trim()`.
unfoldable pub trim_start : Text → Text
unfolding is_whitespace
trim_start [] = []
trim_start (x ∷ s) = let rest = trim_start s in if is_whitespace x then rest else x ∷ s

unfoldable pub trim : Text → Text
unfolding trim_start
trim s = reverse (trim_start (reverse (trim_start s)))
