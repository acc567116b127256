-- ===== src/Text/Decimal.antt =====
-- `u16::to_string` (as in `format!("{}", port)`) and `str::parse::<u16>`.
use scety.Prelude.{
  ℕ, zero, suc, ◌+◌, ◌-◌, ◌*◌, ◌/◌, ◌%◌, ◌^◌, ◌≤◌, ◌<◌, ◌≡◌, ap, ◌∙◌, subst, sym, inl, inr, ◌&&◌,
  Option, none, some, [], ◌∷◌, ◌++◌, arith, ltb, leb, ◌==◌, if◌then◌else◌, Bool-cases,
}
use native.Mathlib.Nat.{pow-suc}
use scety.Text.Defs.{Text}

abbrev pub u16_max : ℕ
u16_max = 65535

-- The decimal digits of a number below `10 ^ fuel`.
unfoldable pub decimal_digits : ℕ → ℕ → Text
decimal_digits zero n = []
decimal_digits (suc fuel) n =
    let rest = decimal_digits fuel (n / 10) in
    if ltb n 10 then (b'0' + n) ∷ [] else rest ++ (b'0' + n % 10) ∷ []

-- A `u16` has at most five digits.
unfoldable pub to_string : ℕ → Text
unfolding decimal_digits
to_string n = decimal_digits 5 n

-- The loop of `from_str_radix`: every character is a digit, and the value stays in range.
unfoldable pub parse_digits : ℕ → Text → Option ℕ
parse_digits acc [] = some acc
parse_digits acc (c ∷ s) =
    let acc' = acc * 10 + (c - b'0') in
    let rest = parse_digits acc' s in
    if leb b'0' c && leb c b'9' && leb acc' u16_max then rest else none

-- One leading `+` is allowed, and a text with no digit is refused.
unfoldable pub parse_u16 : Text → Option ℕ
unfolding parse_digits
parse_u16 [] = none
parse_u16 (c ∷ []) = if c == b'+' then none else parse_digits 0 (c ∷ [])
parse_u16 (c ∷ d ∷ s) = if c == b'+' then parse_digits 0 (d ∷ s) else parse_digits 0 (c ∷ d ∷ s)

-- Reading a digit more at the end.
parse_digits-append :
    (acc n d : ℕ) (s : Text)
    → d < 10
    → n * 10 + d ≤ u16_max
    → parse_digits acc s ≡ some n
    → parse_digits acc (s ++ (b'0' + d) ∷ []) ≡ some (n * 10 + d)
unfolding parse_digits
parse_digits-append acc n d [] lt le e = ground arith
parse_digits-append acc n d (c ∷ s) lt le e =
    ground (arith, parse_digits-append (acc * 10 + (c - b'0')) n d s lt le)

parse_digits-decimal :
    (fuel n : ℕ) → n ≤ u16_max → n < 10 ^ fuel → parse_digits 0 (decimal_digits fuel n) ≡ some n
unfolding parse_digits decimal_digits
parse_digits-decimal zero n le h = ap some (omega arith)
parse_digits-decimal (suc fuel) n le h = elim (Bool-cases (ltb n 10)) [
  | inl e ↦ rw e (ground arith)
  | inr e ↦
      let below : n / 10 < 10 ^ fuel = omega (arith, pow-suc 10 fuel) in
      let q : n / 10 * 10 + n % 10 ≡ n = omega arith in
      rw e (
        parse_digits-append 0 (n / 10) (n % 10) (decimal_digits fuel (n / 10)) (omega arith)
          (omega arith) (parse_digits-decimal fuel (n / 10) (omega arith) below)
        ∙ ap some q)
]

-- The first character is a digit, so no sign.
decimal_digits-cons :
    (fuel n : ℕ) → (c : ℕ) × (s : Text) × (decimal_digits (suc fuel) n ≡ c ∷ s) × (b'0' ≤ c)
unfolding decimal_digits
decimal_digits-cons zero n = elim (Bool-cases (ltb n 10)) [
  | inl e ↦ (b'0' + n, [], rw e, omega arith)
  | inr e ↦ (b'0' + n % 10, [], rw e, omega arith)
]
decimal_digits-cons (suc fuel) n = elim (Bool-cases (ltb n 10)) [
  | inl e ↦ (b'0' + n, [], rw e, omega arith)
  | inr e ↦
      let (c, s, first, digit) = decimal_digits-cons fuel (n / 10) in
      (c, s ++ (b'0' + n % 10) ∷ [], rw e (ap (λ t. t ++ (b'0' + n % 10) ∷ []) first), digit)
]

parse_u16-unsigned : (c : ℕ) (s : Text) → b'0' ≤ c → parse_u16 (c ∷ s) ≡ parse_digits 0 (c ∷ s)
unfolding parse_u16
parse_u16-unsigned c [] h = ground arith
parse_u16-unsigned c (d ∷ s) h = ground arith

-- Printing a port and reading it back gives the port.
pub parse_u16-to_string : (n : ℕ) → n ≤ u16_max → parse_u16 (to_string n) ≡ some n
unfolding to_string
parse_u16-to_string n le =
    let (c, s, first, digit) = decimal_digits-cons 4 n in
    subst (λ t. parse_u16 t ≡ parse_digits 0 t) (sym first) (parse_u16-unsigned c s digit)
    ∙ parse_digits-decimal 5 n le (omega arith)

-- Whatever is read is a port.
pub parse_digits-le :
    (acc n : ℕ) (s : Text) → acc ≤ u16_max → parse_digits acc s ≡ some n → n ≤ u16_max
unfolding parse_digits
parse_digits-le acc n [] h e = ground arith
parse_digits-le acc n (c ∷ s) h e = ground (arith, parse_digits-le (acc * 10 + (c - b'0')) n s)
