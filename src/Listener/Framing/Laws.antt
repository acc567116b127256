-- ===== src/Listener/Framing/Laws.antt =====
-- Exactly which requests `validate_framing_headers` lets pass.
use scety.Prelude.{
  ◌≡◌, refl, ap, sym, suc, ◌↔◌, inl, inr, true, false, Option, none, some, List, [], ◌∷◌, arith,
  if◌then◌else◌, All, Bool-cases, length,
}
use scety.Text.{Text, text_eq_iff, text_eq_cases, eq_ignore_ascii_case}
use scety.Text.Utf8.{Bytes}
use scety.Listener.Framing.{
  Header, ok, content_length_name, transfer_encoding_name, is_named, is_chunked, check_framing,
  scan_framing, validate_framing_headers,
}

-- The values of the headers with a name, in order.
unfoldable pub values : Text → List Header → List Bytes
values name [] = []
values name (h ∷ headers) =
    if is_named name h then h.value ∷ values name headers else values name headers

unfoldable pub last_or : Option Bytes → List Bytes → Option Bytes
last_or o [] = o
last_or o (v ∷ vs) = last_or (some v) vs

abbrev pub first_or : Option Bytes → List Bytes → Option Bytes
first_or (some v) vs = some v
first_or none [] = none
first_or none (v ∷ vs) = some v

-- All values are the first one.
abbrev pub Same : Option Bytes → List Bytes → Type 0
Same none [] = Unit {0}
Same none (v ∷ vs) = All (λ w. w ≡ v) vs
Same (some v) vs = All (λ w. w ≡ v) vs

-- No message has both framings, and what an encoding says is `chunked`.
abbrev pub Unambiguous : Option Bytes → Option Bytes → Type 0
Unambiguous none none = Unit {0}
Unambiguous (some _) none = Unit {0}
Unambiguous (some _) (some _) = ⊥
Unambiguous none (some value) = is_chunked value ≡ true

check_framing_iff : (l t : Option Bytes) → (check_framing l t ≡ ok) ↔ Unambiguous l t
unfolding check_framing
check_framing_iff none none = (λ _. tt, λ _. refl)
check_framing_iff (some v) none = (λ _. tt, λ _. refl)
check_framing_iff (some v) (some w) = (λ e. absurd (cc), λ b. absurd b)
check_framing_iff none (some w) = ground arith

eq_ignore_ascii_case-length : (a b : Text) → eq_ignore_ascii_case a b ≡ true → length a ≡ length b
unfolding eq_ignore_ascii_case
eq_ignore_ascii_case-length [] [] e = refl
eq_ignore_ascii_case-length [] (y ∷ b) e = absurd (cc)
eq_ignore_ascii_case-length (x ∷ a) [] e = absurd (cc)
eq_ignore_ascii_case-length (x ∷ a) (y ∷ b) e =
    ap suc (eq_ignore_ascii_case-length a b (ground arith))

-- The two names do not meet.
names_differ :
    (h : Header) → is_named content_length_name h ≡ true → is_named transfer_encoding_name h ≡ false
names_differ h e = elim (Bool-cases (is_named transfer_encoding_name h)) [
  | inl d ↦ absurd (
      omega (
        arith,
        eq_ignore_ascii_case-length h.name content_length_name e,
        eq_ignore_ascii_case-length h.name transfer_encoding_name d,
      ))
  | inr d ↦ d
]

scan_framing_iff :
    (l t : Option Bytes) (headers : List Header)
    → (scan_framing l t headers ≡ ok) ↔ (
        Same l (values content_length_name headers)
        × Unambiguous
            (first_or l (values content_length_name headers))
            (last_or t (values transfer_encoding_name headers)))
unfolding scan_framing values last_or
scan_framing_iff none t [] = let c = check_framing_iff none t in (λ e. (tt, c.0 e), λ p. c.1 p.1)
scan_framing_iff (some v) t [] =
    let c = check_framing_iff (some v) t in (λ e. (tt, c.0 e), λ p. c.1 p.1)
scan_framing_iff none t (h ∷ headers) = elim (Bool-cases (is_named content_length_name h)) [
  | inl l ↦ rw (l, names_differ h l) (scan_framing_iff (some h.value) t headers)
  | inr l ↦ elim (Bool-cases (is_named transfer_encoding_name h)) [
    | inl e ↦ rw (l, e) (scan_framing_iff none (some h.value) headers)
    | inr e ↦ rw (l, e) (scan_framing_iff none t headers)
  ]
]
scan_framing_iff (some v) t (h ∷ headers) = elim (Bool-cases (is_named content_length_name h)) [
  | inl l ↦ elim (text_eq_cases v h.value) [
    | inl same ↦
        let (sound, complete) = scan_framing_iff (some v) t headers in
        rw (l, names_differ h l, (text_eq_iff v h.value).1 same)
          (λ e. let (all, clear) = sound e in ((sym same, all), clear), λ p. complete (p.0.1, p.1))
    | inr other ↦
        rw (l, names_differ h l, other)
          (λ e. absurd (cc), λ p. absurd (cc ((text_eq_iff v h.value).1 (sym p.0.0))))
  ]
  | inr l ↦ elim (Bool-cases (is_named transfer_encoding_name h)) [
    | inl e ↦ rw (l, e) (scan_framing_iff (some v) (some h.value) headers)
    | inr e ↦ rw (l, e) (scan_framing_iff (some v) t headers)
  ]
]

-- A request passes exactly when its `Content-Length` values are all equal, it does not have both a
-- `Content-Length` and a `Transfer-Encoding`, and the last `Transfer-Encoding`, if there is one, is
-- `chunked` in any letter case and between any spaces.
pub validate_framing_headers_iff :
    (headers : List Header)
    → (validate_framing_headers headers ≡ ok) ↔ (
        Same none (values content_length_name headers)
        × Unambiguous
            (first_or none (values content_length_name headers))
            (last_or none (values transfer_encoding_name headers)))
unfolding validate_framing_headers
validate_framing_headers_iff headers = scan_framing_iff none none headers
