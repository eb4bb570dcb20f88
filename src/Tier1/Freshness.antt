-- ===== src/Tier1/Freshness.antt =====
-- The freshness test is the distance of two times, with no wrap-around.
use sesame_sdk.Prelude.{
  suc, ◌+◌, ◌^◌, ◌<◌, ◌≡◌, refl, ap, ◌∙◌, ◌⊎◌, inl, inr, ◌↔◌, true, some, arith,
}
use sesame_sdk.Prelude.Int.{
  ℤ, pos, negsuc, pos_part, neg_part, ◌≤ℤ◌, ◌-ℤ◌, ◌+ℤ◌, leb_ℤ, sub_i64, abs_i64, wrap64_of_fits,
  -ℤ_parts, +ℤ_parts,
}
use sesame_sdk.Prelude.Result.{ok, ok_or, >>=-eq-ok, ok_or-eq-ok, if_err-eq-ok}
use sesame_sdk.Text.{Bytes}
use sesame_sdk.Message.{expired_timestamp}
use sesame_sdk.External.{Clock, IsCalendar, IsDate}
use sesame_sdk.Tier1.{check_freshness}

-- `a` and `b` are at most `w` apart.
abbrev pub Within : ℤ → ℤ → ℤ → Type 0
Within w a b = (a ≤ℤ b +ℤ w) × (b ≤ℤ a +ℤ w)

sub_i64_of_dates : (a b : ℤ) → IsDate a → IsDate b → sub_i64 a b ≡ a -ℤ b
unfolding sub_i64
sub_i64_of_dates a b h k = wrap64_of_fits (a -ℤ b) (omega (arith, -ℤ_parts a b))

one_part : (d : ℤ) → (pos_part d ≡ 0) ⊎ (neg_part d ≡ 0)
one_part (pos n) = inr refl
one_part (negsuc n) = inl refl

abs_i64_lem : (d : ℤ) → pos_part d + neg_part d < 2 ^ 63 → abs_i64 d ≡ pos (pos_part d + neg_part d)
unfolding abs_i64
abs_i64_lem (pos n) h = ap pos (omega arith)
abs_i64_lem (negsuc n) h = wrap64_of_fits (pos (suc n)) (omega arith) ∙ ap pos (omega arith)

distance_iff :
    (a b w : ℤ) → (leb_ℤ (pos (pos_part (a -ℤ b) + neg_part (a -ℤ b))) w ≡ true) ↔ Within w a b
distance_iff a b w = (
  λ h. ground (arith, one_part (a -ℤ b), -ℤ_parts a b, +ℤ_parts a w, +ℤ_parts b w),
  λ h. ground (arith, one_part (a -ℤ b), -ℤ_parts a b, +ℤ_parts a w, +ℤ_parts b w),
)

module _ {k : Clock} (cal : IsCalendar k) where
  delta_lem :
      (now ts : k.Time)
      → abs_i64 (sub_i64 (k.unix_timestamp now) (k.unix_timestamp ts))
        ≡ (let d = k.unix_timestamp now -ℤ k.unix_timestamp ts in pos (pos_part d + neg_part d))
  delta_lem now ts =
      let a = k.unix_timestamp now in
      let b = k.unix_timestamp ts in
      let h = cal.dates now in
      let i = cal.dates ts in
      rw (sub_i64_of_dates a b h i)
        (abs_i64_lem (a -ℤ b) (ground (arith, one_part (a -ℤ b), -ℤ_parts a b)))

  -- A timestamp passes exactly when it parses to a time that is at most the window away from now,
  -- before or after it.
  pub check_freshness_iff :
      (timestamp : Bytes) (now : k.Time) (window : ℤ)
      → (check_freshness k timestamp now window ≡ ok tt) ↔ (
          (ts : k.Time) × (k.parse_rfc3339 timestamp ≡ some ts)
          × Within window (k.unix_timestamp now) (k.unix_timestamp ts))
  unfolding check_freshness
  check_freshness_iff timestamp now window = (
    λ h.
        let (ts, parsed, rest) =
          >>=-eq-ok (ok_or (k.parse_rfc3339 timestamp) expired_timestamp) _ h in
        let (near, _) =
          if_err-eq-ok
            (leb_ℤ (abs_i64 (sub_i64 (k.unix_timestamp now) (k.unix_timestamp ts))) window) (ok tt)
            expired_timestamp rest in
        (ts, ok_or-eq-ok _ _ parsed, (distance_iff _ _ window).0 (rw (delta_lem now ts) at near)),
    λ (ts, parsed, near). rw (parsed, delta_lem now ts, (distance_iff _ _ window).1 near),
  )
