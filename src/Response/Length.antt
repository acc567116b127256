-- ===== src/Response/Length.antt =====
-- The length that a response with a body declares.
use scety.Prelude.{
  ℕ, zero, suc, ◌+◌, ◌-◌, ◌*◌, ◌/◌, ◌%◌, ◌^◌, ◌<◌, ◌≡◌, refl, ap, ap₂, ◌∙◌, false, List, [], ◌∷◌,
  ◌++◌, map, arith, ltb, length, All, inl, inr, Bool-cases, if_cases,
}
use native.Mathlib.Nat.{pow-suc}
use scety.Text.{Text, codes, eq_ignore_ascii_case}
use scety.Text.Words.{Free}
use scety.Text.Decimal.{decimal_digits}
use scety.Text.Utf8.{Bytes, as_bytes}
use scety.Response.{HttpResponse, with_content, len_to_string}
use scety.Response.Reader.{declared_lengths, value}
use scety.Response.Printed.{as_bytes-append, encode, decimal_digits-Free}
use scety.Response.RoundTrip.{all_headers}

as_bytes-digit : (d : ℕ) → d < 10 → as_bytes ((b'0' + d) ∷ []) ≡ (b'0' + d) ∷ []
unfolding as_bytes
as_bytes-digit d h = ground arith

as_bytes-digits : (fuel n : ℕ) → as_bytes (decimal_digits fuel n) ≡ decimal_digits fuel n
unfolding as_bytes decimal_digits
as_bytes-digits zero n = refl
as_bytes-digits (suc fuel) n =
    if_cases (λ s. as_bytes s ≡ s) (ltb n 10) _ _ (λ e. as_bytes-digit n (ground (arith, e)))
      (λ _.
        as_bytes-append (decimal_digits fuel (n / 10)) ((b'0' + n % 10) ∷ [])
        ∙ ap₂ ◌++◌ (as_bytes-digits fuel (n / 10)) (as_bytes-digit (n % 10) (omega arith)))

value-append : (acc d : ℕ) (s : Bytes) → value acc (s ++ d ∷ []) ≡ value acc s * 10 + (d - b'0')
unfolding value
value-append acc d [] = refl
value-append acc d (x ∷ s) = value-append (acc * 10 + (x - b'0')) d s

value-decimal_digits : (fuel n : ℕ) → n < 10 ^ fuel → value 0 (decimal_digits fuel n) ≡ n
unfolding value decimal_digits
value-decimal_digits zero n h = omega arith
value-decimal_digits (suc fuel) n h = elim (Bool-cases (ltb n 10)) [
  | inl e ↦ rw e (omega arith)
  | inr e ↦
      let below : n / 10 < 10 ^ fuel = omega (arith, pow-suc 10 fuel) in
      rw
        (
          e,
          value-append 0 (b'0' + n % 10) (decimal_digits fuel (n / 10)),
          value-decimal_digits fuel (n / 10) below,
        )
        (omega arith)
]

-- The header is not a `Content-Length`.
abbrev pub IsOther : Text × Text → Type 0
IsOther h = eq_ignore_ascii_case (as_bytes h.0) (codes "Content-Length") ≡ false

declared_lengths-append :
    (hs : List (Text × Text)) (ks : List (Text × Text))
    → All IsOther hs
    → declared_lengths (map encode (hs ++ ks)) ≡ declared_lengths (map encode ks)
unfolding declared_lengths
declared_lengths-append [] ks a = refl
declared_lengths-append (h ∷ hs) ks a =
    rw (declared_lengths, a.0) (declared_lengths-append hs ks a.1)

-- A `usize`.
abbrev pub IsUsize : ℕ → Type 0
IsUsize n = n < 2 ^ 64

pub value-len_to_string :
    (body : Text)
    → IsUsize (length (as_bytes body))
    → value 0 (as_bytes (len_to_string body)) ≡ length (as_bytes body)
unfolding len_to_string
value-len_to_string body h =
    ap (value 0) (as_bytes-digits 20 (length (as_bytes body)))
    ∙ value-decimal_digits 20 (length (as_bytes body)) (omega arith)

-- The headers that `with_content` puts behind the others.
abbrev content_headers : Text → Text → List (Text × Text)
content_headers content_type len =
    (codes "Content-Type", content_type) ∷ (codes "Content-Length", len) ∷ []

content_headers-declared :
    (content_type len : Text)
    → declared_lengths (map encode (content_headers content_type len)) ≡ value 0 (as_bytes len) ∷ []
unfolding declared_lengths scety.Text.to_ascii_lowercase as_bytes
content_headers-declared content_type len = refl

own_headers-IsOther :
    (date : Text) (r : HttpResponse)
    → All IsOther r.headers
    → All IsOther (all_headers (λ _. []) date r)
unfolding eq_ignore_ascii_case scety.Text.to_ascii_lowercase as_bytes
own_headers-IsOther date r a = (refl, (refl, (refl, a)))

with_content-all_headers :
    (date content_type body : Text) (r : HttpResponse)
    → all_headers (λ _. []) date (with_content content_type body r)
      ≡ all_headers (λ _. []) date r ++ content_headers content_type (len_to_string body)
unfolding with_content
with_content-all_headers date content_type body r = refl

-- The only declared length of a response with content is the body's.
pub with_content-declared_lengths :
    (date content_type body : Text) (r : HttpResponse)
    → All IsOther r.headers
    → IsUsize (length (as_bytes body))
    → declared_lengths (map encode (all_headers (λ _. []) date (with_content content_type body r)))
      ≡ length (as_bytes body) ∷ []
with_content-declared_lengths date content_type body r a h =
    ap (λ k. declared_lengths (map encode k)) (with_content-all_headers date content_type body r)
    ∙ declared_lengths-append (all_headers (λ _. []) date r)
        (content_headers content_type (len_to_string body)) (own_headers-IsOther date r a)
    ∙ content_headers-declared content_type (len_to_string body)
    ∙ ap (λ n. n ∷ []) (value-len_to_string body h)

pub len_to_string-Free : (s : Text) → Free 13 (len_to_string s)
unfolding len_to_string
len_to_string-Free s = decimal_digits-Free 13 20 (length (as_bytes s)) refl
