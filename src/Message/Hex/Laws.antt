-- ===== src/Message/Hex/Laws.antt =====
-- Hex encoding and decoding undo each other, up to the case of the digits.
use Prim.Native.Nat.{bit_and, bit_or, suc}
use sesame_sdk.Prelude.{
  ℕ, ◌≤◌, ◌+◌, ◌-◌, ◌*◌, ◌/◌, ◌%◌, ◌^◌, ◌<◌, ◌≡◌, refl, ap, ap₂, ◌∙◌, ◌↔◌, ◌⊎◌, inl, inr, Bool,
  true, false, ◌&&◌, Option, none, some, [], ◌∷◌, map, eqb, eqb_iff, ltb, length, All, arith,
  all_below, all_below_sound, Option-cases, if_none-eq-some,
}
use sesame_sdk.Text.{Bytes, to_lower}
use sesame_sdk.Message.Hex.{digit, hex_encode, val, decode_pairs, hex_decode, ◌>>=◌}

-- Every element is a `u8`.
abbrev pub IsBytes : Bytes → Type 0
IsBytes = All (λ b. b < 256)

abbrev holds : Option ℕ → (ℕ → Bool) → Bool → Bool
holds none p d = d
holds (some n) p d = p n

pub val-digit : (n : ℕ) → n < 16 → val (digit n) ≡ some n
unfolding val
val-digit n h = ground (
  arith,
  all_below_sound 16 (λ n. holds (val (digit n)) (eqb n) false) (unfold all_below in refl) n h,
)

bit_and_low : (b : ℕ) → b < 256 → bit_and b 0x0f ≡ b % 2 ^ 4
bit_and_low b h =
    (eqb_iff _ _).0
      (all_below_sound 256 (λ b. eqb (bit_and b 0x0f) (b % 2 ^ 4)) (unfold all_below in refl) b h)

bit_or_table : (n : ℕ) → n < 256 → bit_or (n / 16 * 2 ^ 4 % 2 ^ 8) (n % 16) ≡ n
bit_or_table n h = (eqb_iff _ _).0 (
    all_below_sound 256 (λ b. eqb (bit_or (b / 16 * 2 ^ 4 % 2 ^ 8) (b % 16)) b)
      (unfold all_below in refl) n h)

bit_or_join : (hi lo : ℕ) → hi < 16 → lo < 16 → bit_or (hi * 2 ^ 4 % 2 ^ 8) lo ≡ hi * 16 + lo
bit_or_join hi lo h l =
    let n = hi * 16 + lo in
    let e : hi ≡ n / 16 = omega arith in
    let f : lo ≡ n % 16 = omega arith in
    ap₂ (λ (a b : ℕ). bit_or (a * 2 ^ 4 % 2 ^ 8) b) e f ∙ bit_or_table n (omega arith)

val_lem : (c n : ℕ) → val c ≡ some n → (n < 16) × (digit n ≡ to_lower c)
unfolding val
val_lem c n h = ground (
  arith,
  all_below_sound 256 (λ c. holds (val c) (λ n. ltb n 16 && eqb (digit n) (to_lower c)) true)
      (unfold all_below in refl) c,
)

decode_pairs_cons :
    (c d : ℕ) (bytes : Bytes)
    → decode_pairs (c ∷ d ∷ bytes) ≡ (do
      hi ← val c
      lo ← val d
      out ← decode_pairs bytes
      some (bit_or (hi * 2 ^ 4 % 2 ^ 8) lo ∷ out))
unfolding decode_pairs
decode_pairs_cons c d bytes = refl

decode_pairs-hex_encode : (b : Bytes) → IsBytes b → decode_pairs (hex_encode b) ≡ some b
unfolding hex_encode
decode_pairs-hex_encode [] h = unfold decode_pairs in refl
decode_pairs-hex_encode (b ∷ bs) (p, h) =
    rw
      (
        decode_pairs_cons,
        bit_and_low b p,
        val-digit (b / 2 ^ 4) (omega arith),
        val-digit (b % 2 ^ 4) (omega arith),
        decode_pairs-hex_encode bs h,
        bit_or_join (b / 2 ^ 4) (b % 2 ^ 4) (omega arith) (omega arith),
      )
      (ap (λ (n : ℕ). some (n ∷ bs)) (omega arith))

pub length-hex_encode : (b : Bytes) → length (hex_encode b) ≡ 2 * length b
unfolding hex_encode
length-hex_encode [] = refl
length-hex_encode (b ∷ bs) = omega (arith, length-hex_encode bs)

-- Decoding an encoded byte string gives it back.
pub hex_decode-hex_encode : (b : Bytes) → IsBytes b → hex_decode (hex_encode b) ≡ some b
unfolding hex_decode
hex_decode-hex_encode b h = ground (arith, length-hex_encode b, decode_pairs-hex_encode b h)

-- What a successful round has read.
decode_pairs-eq-some :
    (c d : ℕ) (bytes out : Bytes)
    → decode_pairs (c ∷ d ∷ bytes) ≡ some out
    → (hi lo : ℕ) × (rest : Bytes) × (val c ≡ some hi)
      × (val d ≡ some lo)
      × (decode_pairs bytes ≡ some rest)
      × (out ≡ bit_or (hi * 2 ^ 4 % 2 ^ 8) lo ∷ rest)
decode_pairs-eq-some c d bytes out h = elim (Option-cases (val c)) [
  | inl e ↦ ground (arith, decode_pairs_cons c d bytes)
  | inr (hi, e) ↦ elim (Option-cases (val d)) [
    | inl f ↦ ground (arith, decode_pairs_cons c d bytes)
    | inr (lo, f) ↦ elim (Option-cases (decode_pairs bytes)) [
      | inl g ↦ ground (arith, decode_pairs_cons c d bytes)
      | inr (rest, g) ↦ (hi, lo, rest, e, f, g, ground (arith, decode_pairs_cons c d bytes))
    ]
  ]
]

hex_encode_join :
    (hi lo : ℕ) (rest : Bytes)
    → hi < 16
    → lo < 16
    → hex_encode (bit_or (hi * 2 ^ 4 % 2 ^ 8) lo ∷ rest) ≡ digit hi ∷ digit lo ∷ hex_encode rest
unfolding hex_encode
hex_encode_join hi lo rest h l =
    rw (bit_or_join hi lo h l, bit_and_low (hi * 16 + lo) (omega arith))
      (let e : (hi * 16 + lo) / 2 ^ 4 ≡ hi = omega arith in
        let f : (hi * 16 + lo) % 2 ^ 4 ≡ lo = omega arith in
        ap₂ (λ (a b : ℕ). digit a ∷ digit b ∷ hex_encode rest) e f)

hex_encode-decode_pairs :
    (s b : Bytes) → decode_pairs s ≡ some b → IsBytes b × (hex_encode b ≡ map to_lower s)
hex_encode-decode_pairs [] b h = unfold decode_pairs hex_encode in ground arith
hex_encode-decode_pairs (c ∷ []) b h = unfold decode_pairs in cc
hex_encode-decode_pairs (c ∷ d ∷ s) b h =
    let (hi, lo, rest, e, f, g, eq) = decode_pairs-eq-some c d s b h in
    let (l, p) = val_lem c hi e in
    let (m, q) = val_lem d lo f in
    let (ok, ih) = hex_encode-decode_pairs s rest g in
    rw eq
      ((omega (arith, bit_or_join hi lo l m), ok), hex_encode_join hi lo rest l m ∙ cc (p, q, ih))

-- A text that decodes is the encoding of its bytes, up to the case of its digits.
pub hex_encode-hex_decode :
    (s b : Bytes) → hex_decode s ≡ some b → IsBytes b × (hex_encode b ≡ map to_lower s)
unfolding hex_decode
hex_encode-hex_decode s b h = hex_encode-decode_pairs s b (ground arith)

val-to_lower : (c : ℕ) → val (to_lower c) ≡ val c
unfolding val
val-to_lower c = ground arith

decode_pairs-to_lower : (s : Bytes) → decode_pairs (map to_lower s) ≡ decode_pairs s
decode_pairs-to_lower [] = refl
decode_pairs-to_lower (c ∷ []) = unfold decode_pairs in refl
decode_pairs-to_lower (c ∷ d ∷ s) =
    rw (decode_pairs_cons, val-to_lower, val-to_lower, decode_pairs-to_lower s, decode_pairs_cons)

length-to_lower : (s : Bytes) → length (map to_lower s) ≡ length s
length-to_lower [] = refl
length-to_lower (c ∷ s) = ap suc (length-to_lower s)

-- The case of the digits is not read.
pub hex_decode-to_lower : (s : Bytes) → hex_decode (map to_lower s) ≡ hex_decode s
unfolding hex_decode
hex_decode-to_lower s = rw (length-to_lower s, decode_pairs-to_lower s)

-- A hexadecimal digit, of either case.
abbrev pub IsHexDigit : ℕ → Type 0
IsHexDigit c = ((b'0' ≤ c) × (c ≤ b'9')) ⊎ ((b'a' ≤ c) × (c ≤ b'f')) ⊎ ((b'A' ≤ c) × (c ≤ b'F'))

val_of_digit : (c : ℕ) → IsHexDigit c → (n : ℕ) × (val c ≡ some n)
unfolding val
val_of_digit c (inl h) = (c - b'0', ground arith)
val_of_digit c (inr (inl h)) = (c - b'a' + 10, ground arith)
val_of_digit c (inr (inr h)) = (c - b'A' + 10, ground arith)

digit_of_val : (c n : ℕ) → val c ≡ some n → IsHexDigit c
unfolding val
digit_of_val c n h = ground arith

decode_pairs_total :
    (s : Bytes) → length s % 2 ≡ 0 → All IsHexDigit s → (b : Bytes) × (decode_pairs s ≡ some b)
decode_pairs_total [] e h = ([], unfold decode_pairs in refl)
decode_pairs_total (c ∷ []) e h = absurd (omega arith)
decode_pairs_total (c ∷ d ∷ s) e (p, (q, h)) =
    let (hi, f) = val_of_digit c p in
    let (lo, g) = val_of_digit d q in
    let (rest, r) = decode_pairs_total s (omega arith) h in
    (bit_or (hi * 2 ^ 4 % 2 ^ 8) lo ∷ rest, rw (decode_pairs_cons, f, g, r))

decode_pairs_digits : (s b : Bytes) → decode_pairs s ≡ some b → All IsHexDigit s
decode_pairs_digits [] b h = tt
decode_pairs_digits (c ∷ []) b h = unfold decode_pairs in cc
decode_pairs_digits (c ∷ d ∷ s) b h =
    let (hi, lo, rest, e, f, g, eq) = decode_pairs-eq-some c d s b h in
    (digit_of_val c hi e, (digit_of_val d lo f, decode_pairs_digits s rest g))

-- A text decodes exactly when it has an even number of bytes, each a hexadecimal digit.
pub hex_decode_iff :
    (s : Bytes) → ((b : Bytes) × (hex_decode s ≡ some b)) ↔ ((length s % 2 ≡ 0) × All IsHexDigit s)
unfolding hex_decode
hex_decode_iff s = (
  λ (b, h).
      let (even, decoded) = if_none-eq-some (eqb (length s % 2) 0) (decode_pairs s) h in
      ((eqb_iff _ _).0 even, decode_pairs_digits s b decoded),
  λ (e, h). let (b, r) = decode_pairs_total s e h in (b, rw ((eqb_iff _ _).1 e) r),
)
