-- ===== src/Load.antt =====
-- benches/load.rs: the requests that it signs up front, and what its phases give to the verifier.
-- The latencies that it prints are not modelled.
pub mod Nonces
pub mod Accepted
pub mod Corrupted
use sesame_sdk.Prelude.{
  ℕ, suc, ◌/◌, ◌%◌, Bool, true, false, none, some, List, [], ◌∷◌, map, if◌then◌else◌,
}
use sesame_sdk.Prelude.Int.{pos}
use sesame_sdk.Text.{Bytes, codes}
use sesame_sdk.Message.{SesameHeaders}
use sesame_sdk.Message.Hex.{digit}
use sesame_sdk.Canonical.{body_hash_hex, request_canonical}
use sesame_sdk.External.{Crypto, Clock}
use sesame_sdk.Keys.{
  StaticKeyProvider, KeyProvider, new, with_signing_key, static_provider, all_scope,
}
use sesame_sdk.Replay.{InMemoryReplayCache}
use sesame_sdk.Replay
use sesame_sdk.Tier.{one}
use sesame_sdk.Tier1.{sign}
use sesame_sdk.Verify.{RequestContext}
use sesame_sdk.Verify.Replays.{Request}

abbrev pub load_key_id : Bytes
load_key_id = codes "sas-east-01"

abbrev pub load_secret : Bytes
load_secret = codes "load-benchmark-shared-secret"

abbrev pub load_ts : Bytes
load_ts = codes "2026-02-24T18:00:00Z"

abbrev pub load_path : Bytes
load_path = codes "/esam"

unfoldable pub load_directory : StaticKeyProvider
load_directory = with_signing_key new load_key_id load_secret all_scope

abbrev pub load_provider : KeyProvider
load_provider = static_provider load_directory

-- `vec![b'x'; body_len]`
abbrev pub body_of : (body_len : ℕ) → Bytes
body_of ℕ.zero = []
body_of (suc n) = b'x' ∷ body_of n

-- The last `width` hexadecimal digits of a number, before a text. All digits of a `usize` stand in
-- 16 places.
unfoldable pub hex_digits : (width n : ℕ) → Bytes → Bytes
hex_digits ℕ.zero n rest = rest
hex_digits (suc width) n rest = hex_digits width (n / 16) (digit (n % 16) ∷ rest)

-- `format!("{:016x}{:016x}", thread_id, i)`
abbrev pub load_nonce : (thread_id i : ℕ) → Bytes
load_nonce thread_id i = hex_digits 16 thread_id (hex_digits 16 i [])

-- `signature.replace_range(0..1, "0")`, which a signature is long enough for.
abbrev pub corrupt : Bytes → Bytes
corrupt [] = []
corrupt (_ ∷ signature) = b'0' ∷ signature

-- `from..from + n`
abbrev pub range : (from n : ℕ) → List ℕ
range from ℕ.zero = []
range from (suc n) = from ∷ range (suc from) n

module _ (c : Crypto) where
  abbrev pub load_signature : (body nonce : Bytes) → Bytes
  load_signature body nonce =
      sign c load_secret (
        request_canonical (codes "POST") load_path load_ts nonce (body_hash_hex c.sha256 body) none)

  -- The closure of `make_requests`.
  unfoldable pub load_headers : (thread_id : ℕ) (body : Bytes) → Bool → (i : ℕ) → SesameHeaders
  load_headers thread_id body valid i =
      let nonce = load_nonce thread_id i in
      let signature = load_signature body nonce in
      record {
        version = some (codes "1.0");
        key_id = some load_key_id;
        timestamp = some load_ts;
        nonce = some nonce;
        signature = some (if valid then signature else corrupt signature);
        scope = none;
        encrypted = false;
        enc_key_id = none;
        iv = none;
      }

  unfoldable pub make_requests : (n thread_id body_len : ℕ) → Bool → List (SesameHeaders × Bytes)
  unfolding load_headers
  make_requests n thread_id body_len valid =
      let body = body_of body_len in
      map (λ i. (load_headers thread_id body valid i, body)) (range 0 n)

  module _ (k : Clock) (now : k.Time) where
    -- The arguments that the phases give to `verify_request` with a request.
    abbrev pub load_request : SesameHeaders × Bytes → Request k
    load_request (headers, body) = record {
      ctx = record { method = codes "POST"; path = load_path; target_channel = none };
      headers = headers;
      raw_body = body;
      now = now;
      min_tier = one;
    }

    -- The sets of `phase_concurrency`, one for each thread.
    unfoldable pub thread_sets : (threads per body_len : ℕ) → List (List (Request k))
    unfolding make_requests
    thread_sets threads per body_len =
        map (λ t. map load_request (make_requests per t body_len true)) (range 0 threads)

-- `InMemoryReplayCache::new(300)`
abbrev pub load_cache : InMemoryReplayCache
load_cache = Replay.new (pos 300)
