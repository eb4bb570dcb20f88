-- ===== src/Message/Hex.antt =====
-- src/message.rs: `hex_encode` and `hex_decode`.
pub mod Laws
use Prim.Native.Nat.{bit_and, bit_or}
use sesame_sdk.Prelude.{
  ℕ, ◌+◌, ◌-◌, ◌*◌, ◌/◌, ◌%◌, ◌^◌, Bool, ◌&&◌, Option, none, some, [], ◌∷◌, leb, eqb, if◌then◌else◌,
  length, get_or,
}
use sesame_sdk.Text.{Bytes, codes}

abbrev pub lut : Bytes
lut = codes "0123456789abcdef"

-- `LUT[i] as char`; the two indices of a byte are below 16.
abbrev pub digit : ℕ → ℕ
digit i = get_or lut i 0

unfoldable pub hex_encode : Bytes → Bytes
hex_encode [] = []
hex_encode (b ∷ bytes) = digit (b / 2 ^ 4) ∷ digit (bit_and b 0x0f) ∷ hex_encode bytes

-- The closure `val`.
unfoldable pub val : ℕ → Option ℕ
val c =
    if leb b'0' c && leb c b'9'
    then some (c - b'0')
    else if leb b'a' c && leb c b'f'
    then some (c - b'a' + 10)
    else if leb b'A' c && leb c b'F'
    then some (c - b'A' + 10)
    else none

infixl 5 ◌>>=◌
abbrev pub ◌>>=◌ {ℓ κ} : {A : Type ℓ} {B : Type κ} → Option A → (A → Option B) → Option B
none >>= f = none
some a >>= f = f a

-- The `while` loop, two bytes a round. A byte left alone would be an index out of bounds: the
-- length is even.
unfoldable pub decode_pairs : Bytes → Option Bytes
unfolding val
decode_pairs [] = some []
decode_pairs (c ∷ []) = none
decode_pairs (c ∷ d ∷ bytes) = do
  hi ← val c
  lo ← val d
  out ← decode_pairs bytes
  some (bit_or (hi * 2 ^ 4 % 2 ^ 8) lo ∷ out)

unfoldable pub hex_decode : Bytes → Option Bytes
unfolding decode_pairs
hex_decode s = if eqb (length s % 2) 0 then decode_pairs s else none
