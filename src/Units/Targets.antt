-- ===== src/Units/Targets.antt =====
-- The tests of src/axum_adapter.rs, over any crate `http` and any parser of its URIs.
use sesame_sdk.Prelude.{
  ◌≡◌, refl, ap, Bool, true, false, ◌&&◌, Option, none, some, List, [], ◌∷◌, ◌==◌, ==_refl, any,
  All, eqb,
}
use sesame_sdk.Text.{Bytes, bytes_Eq, codes, bytes_eq}
use sesame_sdk.Message.Hex.{◌>>=◌}
use sesame_sdk.Adapter.{Http, request_target}

-- The target as the deployed program derives it, as the test transcribes it.
unfoldable pub rust_pois_derivation : (h : Http) → h.Uri → Bytes
rust_pois_derivation h uri = elim (h.path_and_query uri) [
  | some pq ↦ h.as_str pq
  | none ↦ h.path uri
]

abbrev pub matrix : List Bytes
matrix =
    codes "/esam"
    ∷ codes "/esam?channel=SportsFeed-East"
    ∷ codes "/esam?channel=SportsFeed-East&priority=high"
    ∷ codes "/esam/channel/SportsFeed-East"
    ∷ codes "/esam?"
    ∷ codes "/esam?channel=Sports%20Feed"
    ∷ codes "/esam?channel=Sports+Feed"
    ∷ codes "/esam?a=1&a=2"
    ∷ codes "/"
    ∷ codes "http://pois.example/esam?channel=SportsFeed-East"
    ∷ []

module _ (h : Http) (parse : Bytes → Option h.Uri) where
  -- The loop over the rows.
  unfoldable pub agrees_on : List Bytes → Option Bool
  unfolding bytes_eq
  agrees_on [] = some true
  agrees_on (raw ∷ rows) = do
    uri ← parse raw
    rest ← agrees_on rows
    some (request_target h uri == rust_pois_derivation h uri && rest)

  -- The target, and whether it is the path.
  unfoldable pub query_is_included : Option (Bytes × Bool)
  query_is_included = do
    uri ← parse (codes "/esam?channel=SportsFeed-East")
    some (request_target h uri, request_target h uri == h.path uri)

  unfoldable pub every_query_parameter : Option Bytes
  every_query_parameter = do
    uri ← parse (codes "/esam?channel=SportsFeed-East&priority=high")
    some (request_target h uri)

  -- The target, and whether it has a space.
  unfoldable pub percent_encoding : Option (Bytes × Bool)
  percent_encoding = do
    uri ← parse (codes "/esam?channel=Sports%20Feed")
    some (request_target h uri, any (λ b. eqb b b' ') (request_target h uri))

  unfoldable pub absolute_form : Option Bytes
  absolute_form = do
    uri ← parse (codes "http://pois.example/esam?channel=A")
    some (request_target h uri)

  unfoldable pub no_query : Option (Bytes × Bool)
  no_query = do
    uri ← parse (codes "/esam")
    some (request_target h uri, request_target h uri == h.path uri)

  -- A text parses to a URI with this target and this path.
  record Parses (raw target path : Bytes) : Type 0 where
    uri : h.Uri
    pq : h.PathAndQuery
    parsed : parse raw ≡ some uri
    has_target : h.path_and_query uri ≡ some pq
    reads : h.as_str pq ≡ target
    has_path : h.path uri ≡ path

  -- Every row that parses agrees.
  agrees_on_lem :
      (rows : List Bytes)
      → All (λ raw. (uri : h.Uri) × (parse raw ≡ some uri)) rows
      → agrees_on rows ≡ some true
  unfolding agrees_on request_target rust_pois_derivation
  agrees_on_lem [] all = refl
  agrees_on_lem (raw ∷ rows) ((uri, e), all) =
      rw (e, agrees_on_lem rows all) (ap (λ b. some (b && true)) (==_refl (request_target h uri)))

  target_of :
      {raw target path : Bytes} (p : Parses raw target path) → request_target h p.uri ≡ target
  unfolding request_target
  target_of p = rw (p.has_target, request_target) p.reads

  -- The tests of single targets get what they expect, where URIs parse as the crate documents.
  targets_lem :
      Parses
        (codes "/esam?channel=SportsFeed-East")
        (codes "/esam?channel=SportsFeed-East")
        (codes "/esam")
      → Parses
          (codes "/esam?channel=SportsFeed-East&priority=high")
          (codes "/esam?channel=SportsFeed-East&priority=high")
          (codes "/esam")
      → Parses
          (codes "/esam?channel=Sports%20Feed")
          (codes "/esam?channel=Sports%20Feed")
          (codes "/esam")
      → Parses
          (codes "http://pois.example/esam?channel=A")
          (codes "/esam?channel=A")
          (codes "/esam")
      → Parses (codes "/esam") (codes "/esam") (codes "/esam")
      → (query_is_included ≡ some (codes "/esam?channel=SportsFeed-East", false))
        × (every_query_parameter ≡ some (codes "/esam?channel=SportsFeed-East&priority=high"))
        × (percent_encoding ≡ some (codes "/esam?channel=Sports%20Feed", false))
        × (absolute_form ≡ some (codes "/esam?channel=A"))
        × (no_query ≡ some (codes "/esam", true))
  unfolding query_is_included every_query_parameter percent_encoding absolute_form no_query bytes_eq
  targets_lem a b d e f = (
    rw (a.parsed, target_of a, a.has_path) refl,
    rw (b.parsed, target_of b) refl,
    rw (d.parsed, target_of d) refl,
    rw (e.parsed, target_of e) refl,
    rw (f.parsed, target_of f, f.has_path) refl,
  )
