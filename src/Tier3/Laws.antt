-- ===== src/Tier3/Laws.antt =====
-- Sealing and opening, and the associated data as lines.
use mathlib.Core.List.{append_assoc}
use sesame_sdk.Prelude.{◌≡◌, sym, ◌∙◌, Option, none, some, List, ◌∷◌, arith, All}
use sesame_sdk.Prelude.Result.{ok}
use sesame_sdk.Text.{Bytes}
use sesame_sdk.Canonical.Injective.{
  IsLine, join_lines, scope_lines, scope_lines_injective, join_lines_injective,
}
use sesame_sdk.External.{Crypto, IsLawful}
use sesame_sdk.Tier3.{seal, unseal, aad_for_headers}

-- What `seal` returns, `open` takes back to the plaintext, under the same key, IV and data.
pub unseal-seal :
    {c : Crypto}
    → IsLawful c
    → (key iv aad plaintext ciphertext : Bytes) → seal c key iv aad plaintext ≡ ok ciphertext
    → unseal c key iv aad ciphertext ≡ ok plaintext
unfolding seal unseal
unseal-seal {c} law key iv aad plaintext ciphertext h =
    ground (arith, law.decrypt-encrypt key iv aad plaintext ciphertext)

-- The header set that the associated data binds.
pub record HeaderSet : Type 0 where
  pub version : Bytes
  pub key_id : Bytes
  pub timestamp : Bytes
  pub nonce : Bytes
  pub scope : Option Bytes

abbrev pub aad_of : HeaderSet → Bytes
aad_of h = aad_for_headers h.version h.key_id h.timestamp h.nonce h.scope

abbrev pub header_lines : HeaderSet → List Bytes
header_lines h = h.version ∷ h.key_id ∷ h.timestamp ∷ h.nonce ∷ scope_lines h.scope

pub aad-eq-join_lines : (h : HeaderSet) → aad_of h ≡ join_lines (header_lines h)
unfolding aad_for_headers join_lines
aad-eq-join_lines h =
    elim h.scope
      as (λ s.
        aad_for_headers h.version h.key_id h.timestamp h.nonce s
        ≡ join_lines (h.version ∷ h.key_id ∷ h.timestamp ∷ h.nonce ∷ scope_lines s)) [
          | none ↦ simp append_assoc
          | some s ↦ simp append_assoc
        ]

-- Header sets free of line feeds with the same associated data are the same header set.
pub aad_for_headers_injective :
    (h k : HeaderSet)
    → All IsLine (header_lines h)
    → All IsLine (header_lines k)
    → aad_of h ≡ aad_of k
    → h ≡ k
aad_for_headers_injective h k p q e =
    let r =
      join_lines_injective h.version k.version _ _ p q
        (sym (aad-eq-join_lines h) ∙ e ∙ aad-eq-join_lines k) in
    let s : scope_lines h.scope ≡ scope_lines k.scope = cc in
    let t = scope_lines_injective h.scope k.scope s in ground arith
