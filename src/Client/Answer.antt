-- ===== src/Client/Answer.antt =====
-- examples/sign_request.rs: what the client makes of a response.
use mathlib.Core.List.{append_assoc, append-nil}
use sesame_sdk.Prelude.{
  ℕ, zero, suc, ◌+◌, ◌^◌, ◌<◌, ◌≡◌, refl, ap, sym, ◌∙◌, Bool, true, false, ◌&&◌, ◌||◌, none, List,
  [], ◌∷◌, ◌++◌, length, length-append, All, leb, ltb, if◌then◌else◌, arith,
}
use sesame_sdk.Text.{Bytes, strip_any, strip_prefix, white_space}
use sesame_sdk.Text.Decimal.{
  decimal, parse_u16, decimal-cons, decimal-IsDigit, IsDigit, parse_u16-decimal,
}
use sesame_sdk.Client.Post.{finish_word, words_by, status_of}

-- A letter, digit or mark of ASCII.
abbrev pub IsVisible : ℕ → Type 0
IsVisible b = (32 < b) × (b < 127)

abbrev begins_outside : Bytes → Bool
begins_outside [] = false
begins_outside (h ∷ w) = leb h 32 || leb 127 h

abbrev all_outside : List Bytes → Bool
all_outside [] = true
all_outside (w ∷ ws) = begins_outside w && all_outside ws

no_prefix :
    (w : Bytes) (b : ℕ) (s : Bytes)
    → begins_outside w ≡ true
    → IsVisible b
    → strip_prefix w (b ∷ s) ≡ none
unfolding strip_prefix
no_prefix [] b s h v = cc
no_prefix (c ∷ w) b s h (low, high) = ground arith

visible_not_white :
    (ws : List Bytes) (b : ℕ) (s : Bytes)
    → all_outside ws ≡ true
    → IsVisible b
    → strip_any ws (b ∷ s) ≡ none
unfolding strip_any
visible_not_white [] b s h v = refl
visible_not_white (w ∷ ws) b s h v =
    rw (strip_any, no_prefix w b s (ground arith) v) (visible_not_white ws b s (ground arith) v)

words_visible :
    (full fuel : ℕ) (acc word s : Bytes)
    → full ≡ length word + fuel
    → All IsVisible word
    → words_by full acc (word ++ s) ≡ words_by fuel (acc ++ word) s
unfolding words_by
words_visible full fuel acc [] s e h =
    let f : full ≡ fuel = omega (arith, e) in rw (f, append-nil acc) refl
words_visible zero fuel acc (b ∷ word) s e h = absurd (omega (arith, e))
words_visible (suc full) fuel acc (b ∷ word) s e (v, h) =
    rw (words_by, visible_not_white white_space b (word ++ s) refl v)
      (words_visible full fuel (acc ++ b ∷ []) word s (omega (arith, e)) h
        ∙ ap (λ t. words_by fuel t s) (append_assoc acc (b ∷ []) word))

words_word :
    (full fuel : ℕ) (word s : Bytes)
    → full ≡ length word + suc fuel
    → All IsVisible word
    → words_by full [] (word ++ 32 ∷ s) ≡ finish_word word (words_by fuel [] s)
unfolding words_by strip_any strip_prefix
words_word full fuel word s e h = words_visible full (suc fuel) [] word (32 ∷ s) e h

digits-IsVisible : (s : Bytes) → All IsDigit s → All IsVisible s
digits-IsVisible [] h = tt
digits-IsVisible (b ∷ s) ((low, high), h) = ((omega arith, omega arith), digits-IsVisible s h)

-- A response that begins with a version, a space, a number and a space gives the number, and 0
-- where a `u16` cannot hold it.
pub status_of_lem :
    (b : ℕ) (version rest : Bytes) (n : ℕ)
    → All IsVisible (b ∷ version)
    → status_of ((b ∷ version) ++ 32 ∷ (decimal n ++ 32 ∷ rest)) ≡ (if ltb n (2 ^ 16) then n else 0)
unfolding status_of
status_of_lem b version rest n h =
    let (d, digits, e) = decimal-cons n in
    let line = decimal n ++ 32 ∷ rest in
    let words : words_by (length ((b ∷ version) ++ 32 ∷ line)) [] ((b ∷ version) ++ 32 ∷ line)
        ≡ (b ∷ version) ∷ (d ∷ digits) ∷ words_by (length rest) [] rest =
      words_word (length ((b ∷ version) ++ 32 ∷ line)) (length line) (b ∷ version) line
        (omega (arith, length-append (b ∷ version) (32 ∷ line))) h
      ∙ ap (λ ws. (b ∷ version) ∷ ws)
          (words_word (length line) (length rest) (decimal n) rest
              (omega (arith, length-append (decimal n) (32 ∷ rest)))
              (digits-IsVisible (decimal n) (decimal-IsDigit n))
            ∙ ap (λ w. finish_word w (words_by (length rest) [] rest)) e) in
    rw (status_of, words, ap parse_u16 (sym e), parse_u16-decimal n) (ground arith)
