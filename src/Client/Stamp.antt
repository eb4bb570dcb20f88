-- ===== src/Client/Stamp.antt =====
-- examples/sign_request.rs: the client's timestamps and its XML.
use sesame_sdk.Prelude.{ℕ, Bool, true, suc, ◌/◌, ◌%◌, ◌+◌, ◌≤◌, ◌<◌, ◌≡◌, refl, some, [], ◌∷◌, ◌++◌}
use sesame_sdk.Prelude.Int.{ℤ, pos, negsuc}
use sesame_sdk.Text.{Bytes, codes}
use sesame_sdk.Text.Decimal.{decimal, pad, fixed, pad-decimal}
use sesame_sdk.External.{Clock}

-- The fields that `to_calendar_date` and `to_hms` of the crate `time` give, the month as its number.
pub record Fields : Type 0 where
  pub year : ℤ
  pub month : ℕ
  pub day : ℕ
  pub hour : ℕ
  pub minute : ℕ
  pub second : ℕ

-- The text of RFC 3339 for a time of UTC: a fixed number of digits for each field.
abbrev pub utc_text : (year : ℕ) → Fields → Bytes
utc_text year f = fixed 4 year (
    b'-'
    ∷ fixed 2 f.month (
        b'-'
        ∷ fixed 2 f.day (
            b'T' ∷ fixed 2 f.hour (b':' ∷ fixed 2 f.minute (b':' ∷ fixed 2 f.second (b'Z' ∷ []))))))

-- Documented, where `is_utc` is `offset().is_utc()`: the ranges of the fields, which are those of the
-- offset of the time, and that the text of the fields of a time of UTC parses to that second.
pub record IsCivil (k : Clock) (fields : k.Time → Fields) (is_utc : k.Time → Bool) : Type 0 where
  pub month_small : (t : k.Time) → (fields t).month ≤ 12
  pub day_small : (t : k.Time) → (fields t).day ≤ 31
  pub hour_small : (t : k.Time) → (fields t).hour ≤ 23
  pub minute_small : (t : k.Time) → (fields t).minute ≤ 59
  pub second_small : (t : k.Time) → (fields t).second ≤ 59
  pub parses :
      (t : k.Time) (y : ℕ)
      → is_utc t ≡ true
      → (fields t).year ≡ pos y
      → y < 10000
      → (u : k.Time) × (k.parse_rfc3339 (utc_text y (fields t)) ≡ some u)
        × (k.unix_timestamp u ≡ k.unix_timestamp t)

-- `{:04}` of an `i32`: the sign is one of the four.
abbrev year_text : ℤ → Bytes
year_text (pos y) = pad 4 (decimal y)
year_text (negsuc y) = b'-' ∷ pad 3 (decimal (suc y))

abbrev two_digits : ℕ → Bytes
two_digits n = pad 2 (decimal n)

-- The text of the fields of a time.
unfoldable pub rfc3339 : Fields → Bytes
rfc3339 f =
    year_text f.year
    ++ (codes "-"
        ++ (two_digits f.month
            ++ (codes "-"
                ++ (two_digits f.day
                    ++ (codes "T"
                        ++ (two_digits f.hour
                            ++ (codes ":"
                                ++ (two_digits f.minute
                                    ++ (codes ":" ++ (two_digits f.second ++ codes "Z"))))))))))

fixed-append : (width n : ℕ) (a b : Bytes) → fixed width n a ++ b ≡ fixed width n (a ++ b)
unfolding fixed
fixed-append ℕ.zero n a b = refl
fixed-append (suc width) n a b = fixed-append width (n / 10) ((b'0' + n % 10) ∷ a) b

two_lem : (n : ℕ) (rest : Bytes) → n < 100 → two_digits n ++ rest ≡ fixed 2 n rest
two_lem n rest h = rw (pad-decimal 1 n h) (fixed-append 2 n [] rest)

-- The client's text of a time of the years 0 to 9999 is that of RFC 3339.
pub rfc3339-eq-utc_text :
    (f : Fields) (year : ℕ)
    → f.year ≡ pos year
    → year < 10000
    → f.month < 100
    → f.day < 100
    → f.hour < 100
    → f.minute < 100
    → f.second < 100
    → rfc3339 f ≡ utc_text year f
unfolding rfc3339
rfc3339-eq-utc_text f year e y mo d h mi s =
    rw
      (
        e,
        pad-decimal 3 year y,
        fixed-append 4 year [] _,
        two_lem f.month _ mo,
        two_lem f.day _ d,
        two_lem f.hour _ h,
        two_lem f.minute _ mi,
        two_lem f.second _ s,
      )
      refl

-- `esam_xml`
abbrev pub esam_xml : (sig_id : Bytes) → Bytes
esam_xml sig_id =
    codes
      "<?xml version=\"1.0\"?><SignalProcessingEvent xmlns=\"urn:cablelabs:iptvservices:esam:xsd:signal:1\"><AcquiredSignal acquisitionSignalID=\""
    ++ (sig_id
        ++ codes
            "\"><UTCPoint utcPoint=\"2026-06-02T05:00:00Z\"/><BinaryData signalType=\"SCTE35\">/DAWAAAAAAAAAP/wBQb+AAAAAAAAf+sBeA==</BinaryData></AcquiredSignal></SignalProcessingEvent>")
