-- ===== src/Client/Rounds.antt =====
-- examples/sign_request.rs: the client's loop sends its three requests, and a server accepts them.
use sesame_sdk.Prelude.{
  ℕ, ◌≤◌, ◌<◌, ◌≡◌, ◌≢◌, refl, ap, ◌∙◌, sym, some, List, [], ◌∷◌, ◌++◌, length, All, arith, Option,
  none, eqb_iff, Bool, true,
}
use sesame_sdk.Prelude.Int.{pos}
use sesame_sdk.Prelude.Result.{ok, err, >>=-eq-ok}
use sesame_sdk.Text.{Bytes, codes, trim}
use sesame_sdk.Message.{Outcome, SesameHeaders, protocol_version}
use sesame_sdk.Message.Hex.Laws.{IsBytes}
use sesame_sdk.External.{Crypto, Clock, IsLawful, IsCalendar}
use sesame_sdk.Adapter.{Http, headers_from_map}
use sesame_sdk.Tier.{from_u8, level, default_config}
use sesame_sdk.Tier1.Freshness.{Within}
use sesame_sdk.Tier3.{aad_for_headers}
use sesame_sdk.Client.{Settings, path_of, nonce_of, scope_of, seal_body, build_request}
use sesame_sdk.Client.Laws.{IsVerified, build_request-IsVerified}
use sesame_sdk.Client.Total.{build_request_total}
use sesame_sdk.Client.Send.{url_parts, url_of}
use sesame_sdk.Client.Deliver.{sent_headers_total, url_parts-url_of}
use sesame_sdk.Client.ReadBack.{Holds, headers_of_lookup, build_request-ReadsBack}
use sesame_sdk.Client.Stamp.{Fields, rfc3339, IsCivil, rfc3339-eq-utc_text}
use sesame_sdk.Client.Run.{
  Sent, End, done, sends, Draw, xml_of, post_of, checked_post, round, rounds, main_run,
}

-- A draw is usable: the time of `now_utc`, in UTC and of the years 0 to 9999, an IV of 12 bytes, a
-- check within the window of the stamp, and an encryption that succeeds.
pub record IsUsable (c : Crypto) (k : Clock) (fields : k.Time → Fields) (is_utc : k.Time → Bool)
    (s : Settings) (tier : ℕ) (d : Draw k) : Type 0 where
  pub utc : is_utc d.stamped_at ≡ true
  pub year : ℕ
  pub has_year : (fields d.stamped_at).year ≡ pos year
  pub year_small : year < 10000
  pub iv_bytes : IsBytes d.iv
  pub iv_length : length d.iv ≡ 12
  pub near :
      Within default_config.replay_window_secs
        (k.unix_timestamp d.checked_at)
        (k.unix_timestamp d.stamped_at)
  pub ct : Bytes
  pub encrypts :
      c.gcm_encrypt s.enc_key d.iv
        (aad_for_headers protocol_version s.key_id
          (rfc3339 (fields d.stamped_at))
          (nonce_of tier d.iv)
          (scope_of s tier))
        (xml_of tier)
      ≡ some ct

-- What was sent goes to the authority with the signed path, and a server that holds the client's
-- keys and reads the headers through the adapter accepts it at its tier, with the XML.
pub record IsDelivered (c : Crypto) (k : Clock) (s : Settings) (hostport : Bytes) (tier : ℕ)
    (d : Draw k) (r : Sent) : Type 1 where
  pub goes_to : url_parts r.url ≡ (hostport, path_of s)
  pub accepted :
      (http : Http) (map : http.HeaderMap)
      → Holds http map r.hdrs
      → IsVerified c k default_config s tier
          (xml_of tier)
          d.checked_at
          (headers_from_map http map, r.wire)

module _ {c : Crypto} {k : Clock} (law : IsLawful c) (cal : IsCalendar k) (fields : k.Time → Fields)
    (is_utc : k.Time → Bool) (civil : IsCivil k fields is_utc) (s : Settings) (hostport : Bytes)
    (trimmed : trim s.channel ≡ s.channel) (authority : All (λ b. b ≢ b'/') hostport) where
  abbrev base : Bytes
  base = codes "http://" ++ hostport

  abbrev signature_of : Outcome (SesameHeaders × Bytes) → Option Bytes
  signature_of (ok m) = m.0.signature
  signature_of (err e) = none

  signed :
      (tier : ℕ) (ts iv plaintext : Bytes) (m : SesameHeaders × Bytes)
      → build_request c s tier ts iv plaintext ≡ ok m
      → (signature : Bytes) × (m.0.signature ≡ some signature)
  unfolding build_request
  signed tier ts iv plaintext m h =
      let (w, _, e) =
        >>=-eq-ok (seal_body c s tier ts (nonce_of tier iv) (scope_of s tier) iv plaintext) _ h in
      (_, sym (ap signature_of e))

  stamp :
      (t : k.Time) (year : ℕ)
      → is_utc t ≡ true
      → (fields t).year ≡ pos year
      → year < 10000
      → (u : k.Time) × (k.parse_rfc3339 (rfc3339 (fields t)) ≡ some u)
        × (k.unix_timestamp u ≡ k.unix_timestamp t)
  stamp t year utc e lt =
      rw
        (rfc3339-eq-utc_text (fields t) year e lt (omega (arith, civil.month_small t))
          (omega (arith, civil.day_small t)) (omega (arith, civil.hour_small t))
          (omega (arith, civil.minute_small t)) (omega (arith, civil.second_small t)))
        (civil.parses t year utc e lt)

  round_lem :
      (tier : ℕ) (d : Draw k)
      → 1 ≤ tier
      → tier ≤ 3
      → IsUsable c k fields is_utc s tier d
      → (r : Sent) × (round c k fields s base tier d ≡ sends r)
        × IsDelivered c k s hostport tier d r
  unfolding round checked_post post_of
  round_lem tier d low high usable =
      let ts = rfc3339 (fields d.stamped_at) in
      let (u, parsed, same) =
        stamp d.stamped_at usable.year usable.utc usable.has_year usable.year_small in
      let near : Within default_config.replay_window_secs (k.unix_timestamp d.checked_at)
          (k.unix_timestamp u) =
        rw same usable.near in
      let (m, built) =
        build_request_total c s tier ts d.iv (xml_of tier) usable.ct usable.encrypts in
      let verified =
        build_request-IsVerified law cal default_config s tier ts d.iv (xml_of tier) d.checked_at u
          m low high trimmed usable.iv_bytes usable.iv_length parsed near built in
      let (signature, has) = signed tier ts d.iv (xml_of tier) m built in
      let (hdrs, sent) =
        sent_headers_total law cal default_config s ts d.iv (xml_of tier) signature tier m high
          built in
      (
        record { url = url_of base s; hdrs = hdrs; wire = m.1 },
        rw
            (
              built,
              round,
              verified.accepted,
              checked_post,
              verified.achieved,
              (eqb_iff (level (from_u8 tier)) _).1 refl,
              has,
              post_of,
              sent,
            )
            refl,
        record {
          goes_to = url_parts-url_of hostport s authority;
          accepted = λ http map holds.
              rw
                (headers_of_lookup http map hdrs holds
                  ∙ build_request-ReadsBack law cal default_config s ts d.iv (xml_of tier) tier m
                      low high built signature has hdrs sent)
                verified;
        },
      )

  rounds_step :
      (tier : ℕ) (d : Draw k) (more : List (ℕ × Draw k)) (r : Sent) (rs : List Sent) (e : End)
      → round c k fields s base tier d ≡ sends r
      → rounds c k fields s base more ≡ (rs, e)
      → rounds c k fields s base ((tier, d) ∷ more) ≡ (r ∷ rs, e)
  unfolding rounds
  rounds_step tier d more r rs e h i = rw (rounds, h, i) refl

  -- The client's `main` sends three requests, one for each tier, and ends after its loop. Each goes to
  -- the authority of the base with the path that was signed, and a server with the client's keys, an
  -- empty cache and a minimum tier of zero, which reads the headers through the adapter, accepts it at
  -- its tier, with its XML. It is for a channel without white space at its ends, a base of `http://` and
  -- an authority, and draws of which each has a time of UTC with a year from 0 to 9999, a check of that
  -- request within the window of its time, an IV of 12 bytes, and an encryption that succeeds.
  pub main_run-IsDelivered :
      (first second third : Draw k)
      → IsUsable c k fields is_utc s 1 first
      → IsUsable c k fields is_utc s 2 second
      → IsUsable c k fields is_utc s 3 third
      → (a b d : Sent) × (main_run c k fields s base first second third ≡ (a ∷ b ∷ d ∷ [], done))
        × IsDelivered c k s hostport 1 first a
        × IsDelivered c k s hostport 2 second b
        × IsDelivered c k s hostport 3 third d
  unfolding main_run rounds
  main_run-IsDelivered first second third h i j =
      let (a, sent_a, delivered_a) = round_lem 1 first (omega arith) (omega arith) h in
      let (b, sent_b, delivered_b) = round_lem 2 second (omega arith) (omega arith) i in
      let (d, sent_d, delivered_d) = round_lem 3 third (omega arith) (omega arith) j in
      (
        a,
        b,
        d,
        rounds_step 1 first ((2, second) ∷ (3, third) ∷ []) a (b ∷ d ∷ []) done sent_a (
            rounds_step 2 second ((3, third) ∷ []) b (d ∷ []) done sent_b
              (rounds_step 3 third [] d [] done sent_d (unfold rounds in refl))),
        delivered_a,
        delivered_b,
        delivered_d,
      )
