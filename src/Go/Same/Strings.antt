-- ===== src/Go/Same/Strings.antt =====
-- The signed strings of the Go port are those of the crate.
use sesame_sdk.Prelude.{◌≡◌, refl, ap, sym, ◌∙◌, Option, none, some, List, [], ◌∷◌, ◌++◌}
use sesame_sdk.Text.{Bytes, codes}
use sesame_sdk.Canonical.{request_canonical, response_canonical}
use sesame_sdk.Canonical.Injective.{
  join_lines, request_canonical-eq-join_lines, response_canonical-eq-join_lines,
}
use sesame_sdk.Tier3.{aad_for_headers}
use sesame_sdk.Tier3.Laws.{aad-eq-join_lines}
use sesame_sdk.Go.Codec.{go_join, go_request_canonical, go_response_canonical, go_aad_for_headers}

go_join-eq-join_lines : (lines : List Bytes) → go_join (codes "\n") lines ≡ join_lines lines
unfolding go_join join_lines
go_join-eq-join_lines [] = refl
go_join-eq-join_lines (x ∷ []) = refl
go_join-eq-join_lines (x ∷ y ∷ lines) = ap (λ r. x ++ b'\n' ∷ r) (go_join-eq-join_lines (y ∷ lines))

pub go_request_canonical_lem :
    (method path timestamp nonce body_hash : Bytes) (scope : Option Bytes)
    → go_request_canonical method path timestamp nonce body_hash scope
      ≡ request_canonical method path timestamp nonce body_hash scope
unfolding go_request_canonical
go_request_canonical_lem method path timestamp nonce body_hash none =
    go_join-eq-join_lines (method ∷ path ∷ timestamp ∷ nonce ∷ body_hash ∷ [])
    ∙ sym (request_canonical-eq-join_lines method path timestamp nonce body_hash none)
go_request_canonical_lem method path timestamp nonce body_hash (some scope) =
    go_join-eq-join_lines (method ∷ path ∷ timestamp ∷ nonce ∷ body_hash ∷ scope ∷ [])
    ∙ sym (request_canonical-eq-join_lines method path timestamp nonce body_hash (some scope))

pub go_response_canonical_lem :
    (correlation timestamp nonce body_hash : Bytes) (scope : Option Bytes)
    → go_response_canonical correlation timestamp nonce body_hash scope
      ≡ response_canonical correlation timestamp nonce body_hash scope
unfolding go_response_canonical
go_response_canonical_lem correlation timestamp nonce body_hash none =
    go_join-eq-join_lines (codes "RESPONSE" ∷ correlation ∷ timestamp ∷ nonce ∷ body_hash ∷ [])
    ∙ sym (response_canonical-eq-join_lines correlation timestamp nonce body_hash none)
go_response_canonical_lem correlation timestamp nonce body_hash (some scope) =
    go_join-eq-join_lines
      (codes "RESPONSE" ∷ correlation ∷ timestamp ∷ nonce ∷ body_hash ∷ scope ∷ [])
    ∙ sym (response_canonical-eq-join_lines correlation timestamp nonce body_hash (some scope))

pub go_aad_for_headers_lem :
    (version key_id timestamp nonce : Bytes) (scope : Option Bytes)
    → go_aad_for_headers version key_id timestamp nonce scope
      ≡ aad_for_headers version key_id timestamp nonce scope
unfolding go_aad_for_headers
go_aad_for_headers_lem version key_id timestamp nonce none =
    go_join-eq-join_lines (version ∷ key_id ∷ timestamp ∷ nonce ∷ [])
    ∙ sym (
        aad-eq-join_lines (record {
          version = version;
          key_id = key_id;
          timestamp = timestamp;
          nonce = nonce;
          scope = none;
        }))
go_aad_for_headers_lem version key_id timestamp nonce (some scope) =
    go_join-eq-join_lines (version ∷ key_id ∷ timestamp ∷ nonce ∷ scope ∷ [])
    ∙ sym (
        aad-eq-join_lines (record {
          version = version;
          key_id = key_id;
          timestamp = timestamp;
          nonce = nonce;
          scope = some scope;
        }))
