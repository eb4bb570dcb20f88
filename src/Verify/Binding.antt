-- ===== src/Verify/Binding.antt =====
-- What one signature binds: two authentic requests that carry it are one request.
use sesame_sdk.Prelude.{◌≡◌, sym, ap, ◌∙◌, [], ◌∷◌, All, arith, map}
use sesame_sdk.Text.{Bytes, to_lower}
use sesame_sdk.Message.{SesameHeaders, Tier1Fields}
use sesame_sdk.Message.Hex.{hex_encode, hex_decode}
use sesame_sdk.Message.Hex.Laws.{IsBytes, IsHexDigit, hex_decode-hex_encode, hex_decode_iff}
use sesame_sdk.Canonical.{body_hash_hex}
use sesame_sdk.Canonical.Injective.{IsLine, IsLine?, Signed, IsLines, request_canonical_injective}
use sesame_sdk.External.{Crypto, IsLawful}
use sesame_sdk.Tier1.{sign}
use sesame_sdk.Verify.{RequestContext}
use sesame_sdk.Verify.Spec.{signing_string}

-- Two strings of bytes with one encoding are one string.
hex_encode_injective : (a b : Bytes) → IsBytes a → IsBytes b → hex_encode a ≡ hex_encode b → a ≡ b
hex_encode_injective a b p q e =
    let f = ap hex_decode e in
    let g = hex_decode-hex_encode a p in let h = hex_decode-hex_encode b q in cc

digits-IsLine : (s : Bytes) → All IsHexDigit s → IsLine s
digits-IsLine [] h = tt
digits-IsLine (x ∷ s) (p, h) = (omega arith, digits-IsLine s h)

-- The parts of a request that its signature is about.
pub record Message : Type 0 where
  pub ctx : RequestContext
  pub headers : SesameHeaders
  pub raw_body : Bytes
  pub t1 : Tier1Fields

-- No part of the request that goes into the signing string holds a line feed.
pub record IsClean (m : Message) : Type 0 where
  pub method : IsLine m.ctx.method
  pub path : IsLine m.ctx.path
  pub timestamp : IsLine m.t1.timestamp
  pub nonce : IsLine m.t1.nonce
  pub scope : IsLine? m.headers.scope

abbrev pub string_of : Crypto → Message → Bytes
string_of c m = signing_string c m.ctx m.headers m.raw_body m.t1

-- The two strings have distinct tags under the key, or are one string, and likewise the bodies.
pub record NoCollision (c : Crypto) (key : Bytes) (m n : Message) : Type 0 where
  pub hmac :
      c.hmac_sha256 key (string_of c m) ≡ c.hmac_sha256 key (string_of c n)
      → string_of c m ≡ string_of c n
  pub sha : c.sha256 m.raw_body ≡ c.sha256 n.raw_body → m.raw_body ≡ n.raw_body

pub record SameRequest (m n : Message) : Type 0 where
  pub method : m.ctx.method ≡ n.ctx.method
  pub path : m.ctx.path ≡ n.ctx.path
  pub timestamp : m.t1.timestamp ≡ n.t1.timestamp
  pub nonce : m.t1.nonce ≡ n.t1.nonce
  pub scope : m.headers.scope ≡ n.headers.scope
  pub raw_body : m.raw_body ≡ n.raw_body

abbrev signed_of : Crypto → Message → Signed
signed_of c m = record {
  method = m.ctx.method;
  path = m.ctx.path;
  timestamp = m.t1.timestamp;
  nonce = m.t1.nonce;
  body_hash = body_hash_hex c.sha256 m.raw_body;
  scope = m.headers.scope;
}

module _ {c : Crypto} (law : IsLawful c) where
  body_hash_hex-IsLine : (body : Bytes) → IsLine (body_hash_hex c.sha256 body)
  unfolding body_hash_hex
  body_hash_hex-IsLine body =
      let digest = c.sha256 body in
      digits-IsLine (hex_encode digest)
        ((hex_decode_iff (hex_encode digest)).0
          (digest, hex_decode-hex_encode digest (law.sha256_bytes body))).1

  signed_of-IsLines : (m : Message) → IsClean m → IsLines (signed_of c m)
  signed_of-IsLines m h = record {
    method = h.method;
    path = h.path;
    timestamp = h.timestamp;
    nonce = h.nonce;
    scope = h.scope;
    body_hash = body_hash_hex-IsLine m.raw_body;
  }

  -- If two messages carry, up to the case of the digits, the same signature, and it is the one that
  -- a key makes for each of them, then their methods, paths, timestamps, nonces, scopes and bodies
  -- are the same, as long as the hash functions do not collide on them and no field holds a line
  -- feed.
  pub signature_binds :
      (key : Bytes) (m n : Message)
      → IsClean m
      → IsClean n
      → NoCollision c key m n
      → map to_lower m.t1.signature ≡ sign c key (string_of c m)
      → map to_lower n.t1.signature ≡ sign c key (string_of c n)
      → map to_lower m.t1.signature ≡ map to_lower n.t1.signature
      → SameRequest m n
  unfolding sign body_hash_hex
  signature_binds key m n p q distinct e f g =
      let tags =
        hex_encode_injective _ _ (law.hmac_bytes key (string_of c m))
          (law.hmac_bytes key (string_of c n)) (sym e ∙ g ∙ f) in
      let same : signed_of c m ≡ signed_of c n =
        request_canonical_injective (signed_of c m) (signed_of c n) (signed_of-IsLines m p)
          (signed_of-IsLines n q) (distinct.hmac tags) in
      record {
        method = ap (λ (s : Signed). s.method) same;
        path = ap (λ (s : Signed). s.path) same;
        timestamp = ap (λ (s : Signed). s.timestamp) same;
        nonce = ap (λ (s : Signed). s.nonce) same;
        scope = ap (λ (s : Signed). s.scope) same;
        raw_body = distinct.sha (
            hex_encode_injective _ _ (law.sha256_bytes m.raw_body) (law.sha256_bytes n.raw_body)
              (ap (λ (s : Signed). s.body_hash) same));
      }
