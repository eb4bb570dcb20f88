-- ===== src/Units/Tags.antt =====
-- The last bit of a text, which a test of src/tier3_aead.rs flips.
use Prim.Native.Nat.{bit_xor}
use sesame_sdk.Prelude.{
  ◌≡◌, ◌≢◌, refl, ap, true, not, [], ◌∷◌, ◌++◌, length, arith, eqb, eqb_iff, all_below,
  all_below_sound,
}
use sesame_sdk.Text.{Bytes}
use sesame_sdk.Message.Hex.Laws.{IsBytes}

-- `ct[last] ^= 0x01`
abbrev pub flip_last : Bytes → Bytes
flip_last [] = []
flip_last (b ∷ []) = bit_xor b 1 ∷ []
flip_last (b ∷ d ∷ s) = b ∷ flip_last (d ∷ s)

pub flip_last-append : (ct t : Bytes) → t ≢ [] → flip_last (ct ++ t) ≡ ct ++ flip_last t
flip_last-append [] t h = refl
flip_last-append (b ∷ []) [] h = absurd (h refl)
flip_last-append (b ∷ []) (d ∷ t) h = refl
flip_last-append (b ∷ d ∷ ct) t h = ap (λ (s : Bytes). b ∷ s) (flip_last-append (d ∷ ct) t h)

pub length-flip_last : (s : Bytes) → length (flip_last s) ≡ length s
length-flip_last [] = refl
length-flip_last (b ∷ []) = refl
length-flip_last (b ∷ d ∷ s) = omega (arith, length-flip_last (d ∷ s))

flipped_table : all_below 256 (λ b. not (eqb (bit_xor b 1) b)) ≡ true
unfolding all_below
flipped_table = refl

pub flip_last_differs : (s : Bytes) → IsBytes s → s ≢ [] → flip_last s ≢ s
flip_last_differs [] h some_byte e = some_byte refl
flip_last_differs (b ∷ []) (small, h) some_byte e =
    let same : bit_xor b 1 ≡ b = cc in
    let table = all_below_sound 256 (λ b. not (eqb (bit_xor b 1) b)) flipped_table b small in
    let f = (eqb_iff (bit_xor b 1) b).1 same in cc
flip_last_differs (b ∷ d ∷ s) (small, h) some_byte e =
    let same : flip_last (d ∷ s) ≡ d ∷ s = cc in flip_last_differs (d ∷ s) h (λ f. cc) same
