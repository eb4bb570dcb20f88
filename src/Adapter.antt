-- ===== src/Adapter.antt =====
-- src/axum_adapter.rs: the headers and the request-target of an HTTP request. The crate `http` is a
-- parameter.
use sesame_sdk.Prelude.{Option, none, some}
use sesame_sdk.Text.{Bytes}
use sesame_sdk.Message.{SesameHeaders, from_lookup}

-- What the adapter calls of the crate.
pub record Http : Type 1 where
  pub HeaderMap : Type 0
  pub HeaderValue : Type 0
  pub PathAndQuery : Type 0
  pub Uri : Type 0
  pub get : HeaderMap → (name : Bytes) → Option HeaderValue
  -- `HeaderValue::to_str`; `none` is its error
  pub to_str : HeaderValue → Option Bytes
  pub path_and_query : Uri → Option PathAndQuery
  pub as_str : PathAndQuery → Bytes
  pub path : Uri → Bytes

-- `map.get(name).and_then(|v| v.to_str().ok())`
unfoldable pub header_text : (h : Http) → h.HeaderMap → (name : Bytes) → Option Bytes
header_text h map name = elim (h.get map name) [ none ↦ none | some v ↦ h.to_str v ]

unfoldable pub headers_from_map : (h : Http) → h.HeaderMap → SesameHeaders
unfolding header_text
headers_from_map h map = from_lookup (λ name. header_text h map name)

unfoldable pub request_target : (h : Http) → h.Uri → Bytes
request_target h uri = elim (h.path_and_query uri) [ some pq ↦ h.as_str pq | none ↦ h.path uri ]
