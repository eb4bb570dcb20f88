-- ===== src/Load/Nonces.antt =====
-- The nonces of the load test differ for different threads and numbers.
use sesame_sdk.Prelude.{ℕ, suc, ◌/◌, ◌%◌, ◌^◌, ◌≡◌, ◌<◌, sym, ap, ◌∙◌, some, [], arith}
use sesame_sdk.Text.{Bytes}
use sesame_sdk.Message.Hex.{digit, val}
use sesame_sdk.Message.Hex.Laws.{val-digit}
use sesame_sdk.Load.{hex_digits, load_nonce}

digit_injective : (n m : ℕ) → n < 16 → m < 16 → digit n ≡ digit m → n ≡ m
digit_injective n m h k e =
    let f : some n ≡ some m = sym (val-digit n h) ∙ ap val e ∙ val-digit m k in cc

-- All digits stand in `width` places.
abbrev Fits : (width n : ℕ) → Type 0
Fits ℕ.zero n = n ≡ 0
Fits (suc width) n = Fits width (n / 16)

Fits-usize : (n : ℕ) → n < 2 ^ 64 → Fits 16 n
Fits-usize n h = omega arith

hex_digits_injective :
    (width n m : ℕ) (a b : Bytes)
    → Fits width n
    → Fits width m
    → hex_digits width n a ≡ hex_digits width m b
    → (n ≡ m) × (a ≡ b)
unfolding hex_digits
hex_digits_injective ℕ.zero n m a b h k e = (omega (arith, h, k), e)
hex_digits_injective (suc width) n m a b h k e =
    let (q, r) = hex_digits_injective width (n / 16) (m / 16) _ _ h k e in
    let same : digit (n % 16) ≡ digit (m % 16) = cc in
    let rest : a ≡ b = cc in
    let last = digit_injective (n % 16) (m % 16) (omega arith) (omega arith) same in
    (omega (arith, q, last), rest)

pub load_nonce_injective :
    (t i u j : ℕ)
    → t < 2 ^ 64
    → i < 2 ^ 64
    → u < 2 ^ 64
    → j < 2 ^ 64
    → load_nonce t i ≡ load_nonce u j
    → (t ≡ u) × (i ≡ j)
load_nonce_injective t i u j ht hi hu hj e =
    let (same_thread, rest) =
      hex_digits_injective 16 t u _ _ (Fits-usize t ht) (Fits-usize u hu) e in
    (same_thread, (hex_digits_injective 16 i j [] [] (Fits-usize i hi) (Fits-usize j hj) rest).0)
