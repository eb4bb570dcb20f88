-- ===== src/Text/Decimal.antt =====
-- Numbers in decimal: `format!("{}")`, `{:0width}`, and `str::parse::<u16>`.
use sesame_sdk.Prelude.{
  ℕ, zero, suc, ◌+◌, ◌-◌, ◌*◌, ◌/◌, ◌%◌, ◌^◌, ◌≤◌, ◌<◌, ◌≡◌, refl, ap, ◌∙◌, sym, ◌⊎◌, inl, inr,
  true, false, ◌&&◌, Option, none, some, [], ◌∷◌, ◌++◌, length, length-append, ltb, leb, eqb,
  if◌then◌else◌, arith, All,
}
use sesame_sdk.Text.{Bytes}

-- Fuel: each digit takes its share of the number, so the number and one more are enough.
unfoldable pub digits_by : (fuel n : ℕ) (rest : Bytes) → Bytes
digits_by zero n rest = rest
digits_by (suc fuel) n rest = elim (ltb n 10) [
  | true ↦ (b'0' + n) ∷ rest
  | false ↦ digits_by fuel (n / 10) ((b'0' + n % 10) ∷ rest)
]

unfoldable pub decimal : ℕ → Bytes
unfolding digits_by
decimal n = digits_by (suc n) n []

abbrev zeros : ℕ → Bytes
zeros zero = []
zeros (suc n) = b'0' ∷ zeros n

-- `{:0width}`
unfoldable pub pad : (width : ℕ) → Bytes → Bytes
pad width s = zeros (width - length s) ++ s

-- `width` digits.
unfoldable pub fixed : (width n : ℕ) (rest : Bytes) → Bytes
fixed zero n rest = rest
fixed (suc width) n rest = fixed width (n / 10) ((b'0' + n % 10) ∷ rest)

length-fixed : (width n : ℕ) (rest : Bytes) → length (fixed width n rest) ≡ width + length rest
unfolding fixed
length-fixed zero n rest = omega arith
length-fixed (suc width) n rest =
    omega (arith, length-fixed width (n / 10) ((b'0' + n % 10) ∷ rest))

fixed_zero :
    (width n : ℕ) (rest : Bytes)
    → n < 10 ^ width
    → fixed (suc width) n rest ≡ b'0' ∷ fixed width n rest
unfolding fixed
fixed_zero zero n rest h = ap (λ d. d ∷ rest) (omega arith)
fixed_zero (suc width) n rest h = fixed_zero width (n / 10) ((b'0' + n % 10) ∷ rest) (omega arith)

-- The digits of a number that has so many.
digits-eq-fixed :
    (width fuel n : ℕ) (rest : Bytes)
    → n < fuel
    → 10 ^ width ≤ n
    → n < 10 ^ suc width
    → digits_by fuel n rest ≡ fixed (suc width) n rest
unfolding digits_by fixed
digits-eq-fixed width zero n rest h low high = absurd (omega arith)
digits-eq-fixed zero (suc fuel) n rest h low high = ground arith
digits-eq-fixed (suc width) (suc fuel) n rest h low high = ground (
  arith,
  digits-eq-fixed width fuel (n / 10) ((b'0' + n % 10) ∷ rest) (omega arith) (omega arith)
      (omega arith),
)

ten_split : (n m : ℕ) → (n < m) ⊎ (m ≤ n)
ten_split n m = ground arith

digits_small :
    (fuel n : ℕ) (rest : Bytes) → n < 10 → digits_by (suc fuel) n rest ≡ (b'0' + n) ∷ rest
unfolding digits_by
digits_small fuel n rest h = ground arith

digits_large :
    (fuel n : ℕ) (rest : Bytes)
    → 10 ≤ n
    → digits_by (suc fuel) n rest ≡ digits_by fuel (n / 10) ((b'0' + n % 10) ∷ rest)
unfolding digits_by
digits_large fuel n rest h = ground arith

pad_longer : (width : ℕ) (s : Bytes) → length s ≤ width → pad (suc width) s ≡ b'0' ∷ pad width s
unfolding pad
pad_longer width s h =
    let e : suc width - length s ≡ suc (width - length s) = omega arith in rw e refl

pad_full : (width : ℕ) (s : Bytes) → length s ≡ width → pad width s ≡ s
unfolding pad
pad_full width s h = let e : width - length s ≡ 0 = omega arith in rw e refl

le-pad : (width : ℕ) (s : Bytes) → length s ≤ length (pad width s)
unfolding pad
le-pad width s = omega (arith, length-append (zeros (width - length s)) s)

-- The digits of a number below a power of ten, filled up with zeros, are those of its places.
pub pad-decimal :
    (width n : ℕ) → n < 10 ^ suc width → pad (suc width) (decimal n) ≡ fixed (suc width) n []
unfolding decimal
pad-decimal zero n h =
    rw (digits_small n n [] (omega arith)) (unfold pad fixed in ap (λ d. d ∷ []) (omega arith))
pad-decimal (suc width) n h = elim (ten_split n (10 ^ suc width)) [
  | inl lt ↦
      let shorter = pad-decimal width n lt in
      let len : length (decimal n) ≤ suc width = omega (
        arith,
        le-pad (suc width) (decimal n),
        ap (λ (s : Bytes). length s) shorter,
        length-fixed (suc width) n [],
      ) in
      pad_longer (suc width) (decimal n) len
      ∙ ap (λ s. b'0' ∷ s) shorter
      ∙ sym (fixed_zero (suc width) n [] lt)
  | inr ge ↦
      let e : decimal n ≡ fixed (suc (suc width)) n [] =
        digits-eq-fixed (suc width) (suc n) n [] (omega arith) ge h in
      pad_full (suc (suc width)) (decimal n)
        (ap (λ (s : Bytes). length s) e ∙ length-fixed (suc (suc width)) n [] ∙ omega arith)
      ∙ e
]

-- The rounds of `parse::<u16>`, each checked for overflow.
unfoldable pub u16_digits : (acc : ℕ) → Bytes → Option ℕ
u16_digits acc [] = some acc
u16_digits acc (b ∷ s) =
    let next = acc * 10 + (b - b'0') in
    let rest = u16_digits next s in
    if leb b'0' b && leb b b'9' && ltb next (2 ^ 16) then rest else none

-- One sign may stand before the digits, of which there is one at least.
unfoldable pub parse_u16 : Bytes → Option ℕ
parse_u16 [] = none
parse_u16 (b ∷ []) = u16_digits 0 (b ∷ [])
parse_u16 (b ∷ d ∷ s) = if eqb b b'+' then u16_digits 0 (d ∷ s) else u16_digits 0 (b ∷ d ∷ s)

u16_digit :
    (acc d : ℕ) (rest : Bytes)
    → d < 10
    → u16_digits acc ((b'0' + d) ∷ rest)
      ≡ (if ltb (acc * 10 + d) (2 ^ 16) then u16_digits (acc * 10 + d) rest else none)
unfolding u16_digits
u16_digit acc d rest h = let e : b'0' + d - b'0' ≡ d = omega arith in rw e (ground arith)

u16_digits-digits_by :
    (fuel n : ℕ) (rest : Bytes)
    → n < fuel
    → n < 2 ^ 16
    → u16_digits 0 (digits_by fuel n rest) ≡ u16_digits n rest
u16_digits-digits_by zero n rest h small = absurd (omega arith)
u16_digits-digits_by (suc fuel) n rest h small = elim (ten_split n 10) [
  | inl lt ↦ rw (digits_small fuel n rest lt, u16_digit 0 n rest lt) (ground arith)
  | inr ge ↦
      rw
        (
          digits_large fuel n rest ge,
          u16_digits-digits_by fuel (n / 10) ((b'0' + n % 10) ∷ rest) (omega arith) (omega arith),
          u16_digit (n / 10) (n % 10) rest (omega arith),
        )
        (ground arith)
]

u16_digits_over :
    (fuel n : ℕ) (rest : Bytes)
    → n < fuel
    → 2 ^ 16 ≤ n
    → u16_digits 0 (digits_by fuel n rest) ≡ none
u16_digits_over zero n rest h large = absurd (omega arith)
u16_digits_over (suc fuel) n rest h large = elim (ten_split (n / 10) (2 ^ 16)) [
  | inl lt ↦
      rw
        (
          digits_large fuel n rest (omega arith),
          u16_digits-digits_by fuel (n / 10) ((b'0' + n % 10) ∷ rest) (omega arith) lt,
          u16_digit (n / 10) (n % 10) rest (omega arith),
        )
        (ground arith)
  | inr ge ↦
      rw (digits_large fuel n rest (omega arith))
        (u16_digits_over fuel (n / 10) ((b'0' + n % 10) ∷ rest) (omega arith) ge)
]

abbrev pub IsDigit : ℕ → Type 0
IsDigit b = (b'0' ≤ b) × (b ≤ b'9')

digits_by-IsDigit :
    (fuel n : ℕ) (rest : Bytes) → All IsDigit rest → n < fuel → All IsDigit (digits_by fuel n rest)
digits_by-IsDigit zero n rest h lt = absurd (omega arith)
digits_by-IsDigit (suc fuel) n rest h lt = elim (ten_split n 10) [
  | inl few ↦ rw (digits_small fuel n rest few) ((omega arith, omega arith), h)
  | inr many ↦ rw (digits_large fuel n rest many) (
      digits_by-IsDigit fuel (n / 10) ((b'0' + n % 10) ∷ rest) ((omega arith, omega arith), h)
        (omega arith))
]

pub decimal-IsDigit : (n : ℕ) → All IsDigit (decimal n)
unfolding decimal
decimal-IsDigit n = digits_by-IsDigit (suc n) n [] tt (omega arith)

parse_digits : (b : ℕ) (s : Bytes) → All IsDigit (b ∷ s) → parse_u16 (b ∷ s) ≡ u16_digits 0 (b ∷ s)
unfolding parse_u16
parse_digits b [] h = refl
parse_digits b (d ∷ s) ((low, high), h) = ground arith

digits_by-cons :
    (fuel n : ℕ) (rest : Bytes) → n < fuel → (b : ℕ) × (s : Bytes) × (digits_by fuel n rest ≡ b ∷ s)
digits_by-cons zero n rest lt = absurd (omega arith)
digits_by-cons (suc fuel) n rest lt = elim (ten_split n 10) [
  | inl few ↦ (_, _, digits_small fuel n rest few)
  | inr many ↦
      let (b, s, e) = digits_by-cons fuel (n / 10) ((b'0' + n % 10) ∷ rest) (omega arith) in
      (b, s, digits_large fuel n rest many ∙ e)
]

pub decimal-cons : (n : ℕ) → (b : ℕ) × (s : Bytes) × (decimal n ≡ b ∷ s)
unfolding decimal
decimal-cons n = digits_by-cons (suc n) n [] (omega arith)

parse-decimal : (n : ℕ) → parse_u16 (decimal n) ≡ u16_digits 0 (digits_by (suc n) n [])
parse-decimal n =
    let (b, s, e) = decimal-cons n in
    ap parse_u16 e
    ∙ parse_digits b s (rw e at (decimal-IsDigit n))
    ∙ ap (u16_digits 0) (sym e)
    ∙ unfold decimal in refl

-- What is written of a number reads back as the number, and fails to when a `u16` cannot hold it.
pub parse_u16-decimal : (n : ℕ) → parse_u16 (decimal n) ≡ (if ltb n (2 ^ 16) then some n else none)
parse_u16-decimal n = elim (ten_split n (2 ^ 16)) [
  | inl lt ↦
      parse-decimal n
      ∙ u16_digits-digits_by (suc n) n [] (omega arith) lt
      ∙ unfold u16_digits in ground arith
  | inr ge ↦ parse-decimal n ∙ u16_digits_over (suc n) n [] (omega arith) ge ∙ ground arith
]
