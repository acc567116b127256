-- ===== src/Response/Reader.antt =====
-- A reader of HTTP responses, written from the protocol: a start line, the fields up to an empty
-- line, and a body. It shares nothing with the printer.
use scety.Prelude.{
  ℕ, ◌+◌, ◌-◌, ◌*◌, Bool, true, false, ◌&&◌, Option, none, some, List, [], ◌∷◌, ◌==◌,
}
use scety.Text.{codes, split_once, eq_ignore_ascii_case}
use scety.Text.Utf8.{Bytes}

pub record Message : Type 0 where
  pub start : Bytes
  pub fields : List (Bytes × Bytes)
  pub body : Bytes

abbrev pub Lines : Type 0
Lines = Option (List Bytes × Bytes)

abbrev pub end_line : Lines → Lines
end_line none = none
end_line (some (lines, rest)) = some ([] ∷ lines, rest)

abbrev pub add_byte : ℕ → Lines → Lines
add_byte x none = none
add_byte x (some ([], rest)) = none
add_byte x (some (line ∷ lines, rest)) = some ((x ∷ line) ∷ lines, rest)

-- The lines up to the first empty one, without their ends, and what follows. The flag says that a
-- line starts here.
unfoldable pub read_lines : Bool → Bytes → Lines
read_lines at_start [] = none
read_lines at_start (x ∷ []) = none
read_lines at_start (x ∷ y ∷ s) = elim (x == 13 && y == 10) [
  | false ↦ add_byte x (read_lines false (y ∷ s))
  | true ↦ elim at_start [ true ↦ some ([], s) | false ↦ end_line (read_lines true s) ]
]

-- The space after the colon is not part of the value.
abbrev pub drop_space : Bytes → Bytes
drop_space [] = []
drop_space (x ∷ s) = elim (x == b' ') [ true ↦ s | false ↦ x ∷ s ]

abbrev pub add_field :
    Option (Bytes × Bytes) → Option (List (Bytes × Bytes)) → Option (List (Bytes × Bytes))
add_field none fields = none
add_field (some p) none = none
add_field (some (name, value)) (some fields) = some ((name, drop_space value) ∷ fields)

unfoldable pub read_fields : List Bytes → Option (List (Bytes × Bytes))
unfolding split_once
read_fields [] = some []
read_fields (line ∷ lines) = add_field (split_once b':' line) (read_fields lines)

abbrev pub with_fields : Bytes → Bytes → Option (List (Bytes × Bytes)) → Option Message
with_fields start body none = none
with_fields start body (some fields) = some (record { start = start; fields = fields; body = body })

abbrev pub of_lines : Lines → Option Message
unfolding read_fields
of_lines none = none
of_lines (some ([], body)) = none
of_lines (some (start ∷ lines, body)) = with_fields start body (read_fields lines)

unfoldable pub read_message : Bytes → Option Message
unfolding read_lines read_fields
read_message s = of_lines (read_lines true s)

-- The value of a text of decimal digits.
unfoldable pub value : ℕ → Bytes → ℕ
value acc [] = acc
value acc (d ∷ s) = value (acc * 10 + (d - b'0')) s

-- The values of the fields named `Content-Length`, in any case.
unfoldable pub declared_lengths : List (Bytes × Bytes) → List ℕ
unfolding eq_ignore_ascii_case value
declared_lengths [] = []
declared_lengths ((name, v) ∷ fields) =
    let rest = declared_lengths fields in
    elim (eq_ignore_ascii_case name (codes "Content-Length")) [
      | true ↦ value 0 v ∷ rest
      | false ↦ rest
    ]
