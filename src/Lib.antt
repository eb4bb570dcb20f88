-- ===== src/Lib.antt =====
-- SESAME: authenticated, fresh, authorised and optionally encrypted ESAM messages. The crate's
-- verifier takes a request's headers, body and time, a key directory, a replay cache and a channel
-- policy, and answers with the verified request or one of nine errors; its signer makes responses.
--
-- The parts, and the files that model them:
-- * Message and Message/Hex (src/message.rs): the nine header names, the errors with their codes and
--   statuses, `SesameHeaders` and its readers, hexadecimal encoding and decoding.
-- * Canonical (src/canonical.rs): `body_hash_hex`, `request_canonical` and `response_canonical`, the
--   strings that signatures cover. A string is the list of its bytes.
-- * Tier1 (src/tier1_hmac.rs): `sign`, `verify`, `verify_any` with its loop as `try_keys`, and
--   `check_freshness` with the `i64` subtraction and absolute value as wrapping arithmetic.
-- * Tier2 (src/tier2_authz.rs): `parse_scope_channel` and `authorize`.
-- * Tier3 (src/tier3_aead.rs): `seal`, `open` (called `unseal`) and `aad_for_headers`.
-- * Keys (src/keys.rs): `ChannelScope`, the trait `KeyProvider` as a record, and the directory
--   `StaticKeyProvider` with its updates; `static_provider` is its `impl KeyProvider`.
-- * Replay (src/replay.rs): the trait `ReplayCache` as a record over a state, and
--   `InMemoryReplayCache`. The mutex makes each call one step, so a history is a list of calls.
-- * Tier and Verify (src/lib.rs): tiers, configuration, and `verify_request` in the stages of its
--   body: `check_tier1` and `authenticate` for Tier 1, `replay_then` for the cache, `tier2`,
--   `decrypt_body` and `tier3`, and `grant` for all that follows the cache. The cache is a state that
--   the call takes and returns.
-- * Respond (src/lib.rs): `sign_response`; the random bytes it draws are arguments.
-- * Suite (src/lib.rs, the tests): the request that the tests make for a tier, and what each test of
--   a request gives to the verifier, over any cryptography; Suite/Data has their
--   keys and texts, Suite/Responses and Suite/Fresh the tests of responses. Units has the tests inside the other files of src/.
-- * Client (examples/sign_request.rs): the request that the client builds for a tier, and its
--   self-check. Client/Stamp has `rfc3339` and `esam_xml`, Client/Send the headers and the URL,
--   Client/Post the bytes that `http_post` writes and what is read of the response, Client/Run the
--   loop of `main`, Client/KeyFile how it reads its keys. Client/ReadBack and Client/Deliver say
--   what the adapter reads of the headers, Client/Reader and Client/Lines what a reader of HTTP/1.1
--   does, Client/Rounds what a run comes to, and Client/Answer and Client/Marks what the client makes of
--   a response.
-- * Adapter (src/axum_adapter.rs): `headers_from_map` and `request_target`, over the crate `http` as
--   the record `Http`.
-- * Load (benches/load.rs): the requests that the load test signs up front, with their nonces, and
--   the arguments of its calls. Verify/Threads is its second phase, and any server of that kind:
--   threads with requests of their own take turns at `verify_request` on one cache. A turn is a whole
--   call, which stands where the call takes the cache, once and under the mutex.
-- * Golden (tools/golden-extractor/src/main.rs, src/vectors.rs, tests/conformance.rs): the makers of
--   the golden vectors, their records, and the checks that the conformance gate runs on each;
--   Golden/Files has the inputs of the extractor and the gate's loops. The deployed program rust-pois,
--   whose functions the extractor runs, is the record `Deployed`.
-- * Go (go/message.go, canonical.go, tier1.go, tier3.go, keys.go, replay.go and protocol.go): the port
--   of the crate to Go, whose functions have `go_` before their names; Go/Same relates it to the crate,
--   and Go/Interop has the two speak to each other. Its directory is over the maps of the crate's
--   `StaticKeyProvider`, whose keys for encryption have 32 bytes, so that making a cipher of one does
--   not fail.
--
-- Verify/Spec says of a request, not of the stages of the code, when it is accepted, and
-- Verify/Refusal when it is refused, with which error and which cache; Verify/Accept and Verify/Refuse
-- tie them to the code.
--
-- External holds what the crates `sha2`, `hmac`, `aes-gcm` and `time` do for the program, as the
-- records `Crypto` and `Clock`; `IsLawful`, `IsGcm` and `IsCalendar` state their documented behaviour,
-- and Tests/Fixture and Tests/Gcm give instances of them. Prelude, with its children, has the shared types, results,
-- maps, and integers: `ℤ` over the native numbers, with `wrap64` for `i64`. Text has bytes, ASCII case
-- and the trimming of Unicode white space by its UTF-8 codes; Text/Decimal has decimal numbers.
--
-- Loops are structural recursions on their lists; trimming runs on the length of its text, of which
-- every round takes a byte or more, and the digits of a number on the number. Windows are taken
-- between 1 second and 2 ^ 62, and times are those of the crate `time`, whose years have at most six
-- digits; then no `i64` wraps.
--
-- Not modelled: the C++ and Python ports, the Go port's parser and printer of times (they are
-- arguments), the latencies that the load test measures, the client's files, sockets, output and lossy
-- decoding of UTF-8, and the JSON of the golden vectors. A `HashMap` is an association list with one
-- entry for each key, whose order nothing reads. Constant-time comparison has the value of a
-- comparison.
pub mod Prelude
pub mod Text
pub mod Load
pub mod Suite
pub mod Units
pub mod Go
pub mod Message
pub mod Adapter
pub mod Canonical
pub mod External
pub mod Tier1
pub mod Keys
pub mod Replay
pub mod Tier
pub mod Tier2
pub mod Tier3
pub mod Verify
pub mod Respond
pub mod Client
pub mod Golden
pub mod Tests
