-- ===== src/Text/Utf8.antt =====
-- UTF-8: `str::from_utf8`, `String::from_utf8_lossy` and `as_bytes`.
use scety.Prelude.{
  ℕ, ◌+◌, ◌-◌, ◌*◌, ◌/◌, ◌%◌, Bool, ◌&&◌, Option, none, some, List, [], ◌∷◌, ◌++◌, ltb, leb, ◌==◌,
  if◌then◌else◌, drop,
}
use scety.Text.Defs.{Text}

abbrev pub Bytes : Type 0
Bytes = List ℕ

-- One step of decoding: a scalar value and the bytes that it took, or the length of the maximal
-- invalid part.
pub data Chunk : Type 0 where
  valid : ℕ → ℕ → Chunk
  invalid : ℕ → Chunk

-- The byte is `10xxxxxx`, within narrower bounds where the first byte asks for them.
abbrev within : ℕ → ℕ → ℕ → Bool
within lo hi b = leb lo b && leb b hi

-- The bounds of the second byte after a first byte.
second_low : ℕ → ℕ
second_low b = if b == 0xE0 then 0xA0 else if b == 0xF0 then 0x90 else 0x80

second_high : ℕ → ℕ
second_high b = if b == 0xED then 0x9F else if b == 0xF4 then 0x8F else 0xBF

-- How many bytes a first byte announces; 0 for one that starts nothing.
width : ℕ → ℕ
width b =
    if ltb b 0x80
    then 1
    else if within 0xC2 0xDF b
    then 2
    else if within 0xE0 0xEF b
    then 3
    else if within 0xF0 0xF4 b
    then 4
    else 0

two_bytes : ℕ → Bytes → Chunk
unfolding second_low
two_bytes b [] = invalid 1
two_bytes b (c ∷ s) =
    if within 0x80 0xBF c then valid ((b - 0xC0) * 64 + (c - 0x80)) 2 else invalid 1

three_bytes : ℕ → Bytes → Chunk
unfolding second_low second_high
three_bytes b [] = invalid 1
three_bytes b (c ∷ []) = invalid (if within (second_low b) (second_high b) c then 2 else 1)
three_bytes b (c ∷ d ∷ s) =
    if within (second_low b) (second_high b) c
    then (if within 0x80 0xBF d
        then valid ((b - 0xE0) * 4096 + (c - 0x80) * 64 + (d - 0x80)) 3
        else invalid 2)
    else invalid 1

four_bytes : ℕ → Bytes → Chunk
unfolding second_low second_high
four_bytes b [] = invalid 1
four_bytes b (c ∷ []) = invalid (if within (second_low b) (second_high b) c then 2 else 1)
four_bytes b (c ∷ d ∷ []) =
    invalid
      (if within (second_low b) (second_high b) c then (if within 0x80 0xBF d then 3 else 2) else 1)
four_bytes b (c ∷ d ∷ e ∷ s) =
    if within (second_low b) (second_high b) c
    then (if within 0x80 0xBF d
        then (if within 0x80 0xBF e
            then valid ((b - 0xF0) * 262144 + (c - 0x80) * 4096 + (d - 0x80) * 64 + (e - 0x80)) 4
            else invalid 3)
        else invalid 2)
    else invalid 1

chunk : ℕ → Bytes → Chunk
unfolding width two_bytes three_bytes four_bytes
chunk b s =
    if width b == 1
    then valid b 1
    else if width b == 2
    then two_bytes b s
    else if width b == 3
    then three_bytes b s
    else if width b == 4
    then four_bytes b s
    else invalid 1

-- The decoders drop at least the first byte each round, so the input's own length is fuel enough.
strict : Bytes → Bytes → Option Text
unfolding chunk
strict fuel [] = some []
strict [] (b ∷ s) = none
strict (_ ∷ fuel) (b ∷ s) = elim (chunk b s) [
  | invalid n ↦ none
  | valid c n ↦ elim (strict fuel (drop (n - 1) s)) [ none ↦ none | some t ↦ some (c ∷ t) ]
]

lossy : Bytes → Bytes → Text
unfolding chunk
lossy fuel [] = []
lossy [] (b ∷ s) = []
lossy (_ ∷ fuel) (b ∷ s) = elim (chunk b s) [
  | invalid n ↦ 0xFFFD ∷ lossy fuel (drop (n - 1) s)
  | valid c n ↦ c ∷ lossy fuel (drop (n - 1) s)
]

-- `std::str::from_utf8(bytes).ok()`
unfoldable pub from_utf8 : Bytes → Option Text
unfolding strict
from_utf8 s = strict s s

-- `String::from_utf8_lossy(bytes)`
unfoldable pub from_utf8_lossy : Bytes → Text
unfolding lossy
from_utf8_lossy s = lossy s s

-- `s.as_bytes()`
unfoldable pub as_bytes : Text → Bytes
as_bytes [] = []
as_bytes (c ∷ s) =
    (if ltb c 0x80
      then c ∷ []
      else if ltb c 0x800
      then (0xC0 + c / 64) ∷ (0x80 + c % 64) ∷ []
      else if ltb c 0x10000
      then (0xE0 + c / 4096) ∷ (0x80 + c / 64 % 64) ∷ (0x80 + c % 64) ∷ []
      else (0xF0 + c / 262144)
        ∷ (0x80 + c / 4096 % 64)
        ∷ (0x80 + c / 64 % 64)
        ∷ (0x80 + c % 64)
        ∷ [])
    ++ as_bytes s
