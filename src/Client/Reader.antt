-- ===== src/Client/Reader.antt =====
-- A reader of HTTP/1.1: the request line, the fields and the body of a request.
use sesame_sdk.Prelude.{
  ℕ, zero, suc, true, false, ◌&&◌, Option, none, some, List, [], ◌∷◌, length, eqb,
}
use sesame_sdk.Text.{Bytes, codes, strip_prefix}
use sesame_sdk.Client.Send.{split_at}

-- A line, and what follows its end.
unfoldable pub read_line : Bytes → Option (Bytes × Bytes)
read_line [] = none
read_line (b ∷ []) = none
read_line (b ∷ d ∷ s) = elim (eqb b 13 && eqb d 10) [
  | true ↦ some ([], s)
  | false ↦ elim (read_line (d ∷ s)) [ none ↦ none | some (line, rest) ↦ some (b ∷ line, rest) ]
]

-- `name: value`
unfoldable pub read_field : Bytes → Option (Bytes × Bytes)
unfolding split_at strip_prefix
read_field line = elim (split_at b':' line) [
  | none ↦ none
  | some (name, from) ↦ elim (strip_prefix (codes ": ") from) [
    | none ↦ none
    | some value ↦ some (name, value)
  ]
]

abbrev with_field :
    Option (Bytes × Bytes) → List (Bytes × Bytes) × Bytes → Option (List (Bytes × Bytes) × Bytes)
with_field none later = none
with_field (some field) later = some (field ∷ later.0, later.1)

-- An empty line ends the fields.
unfoldable pub next_field :
    (line rest : Bytes)
    → Option (List (Bytes × Bytes) × Bytes)
    → Option (List (Bytes × Bytes) × Bytes)
unfolding read_field
next_field [] rest later = some ([], rest)
next_field (b ∷ line) rest none = none
next_field (b ∷ line) rest (some later) = with_field (read_field (b ∷ line)) later

-- The fields up to the empty line, and the body. Fuel: a line is a byte at least.
unfoldable pub read_fields : (fuel : ℕ) → Bytes → Option (List (Bytes × Bytes) × Bytes)
unfolding read_line next_field
read_fields zero s = none
read_fields (suc fuel) s = elim (read_line s) [
  | none ↦ none
  | some (line, rest) ↦ next_field line rest (read_fields fuel rest)
]

pub record Message : Type 0 where
  pub request_line : Bytes
  pub fields : List (Bytes × Bytes)
  pub body : Bytes

unfoldable pub read_request : Bytes → Option Message
unfolding read_line read_fields
read_request s = elim (read_line s) [
  | none ↦ none
  | some (line, rest) ↦ elim (read_fields (length rest) rest) [
    | none ↦ none
    | some (fields, body) ↦ some (record { request_line = line; fields = fields; body = body })
  ]
]
