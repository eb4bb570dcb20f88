-- ===== src/Client/Post.antt =====
-- examples/sign_request.rs: the bytes that `http_post` writes, and what it reads of the response.
use sesame_sdk.Prelude.{
  ℕ, zero, suc, Bool, true, false, Option, none, some, List, [], ◌∷◌, ◌++◌, map, length,
}
use sesame_sdk.Text.{Bytes, codes, to_lower, strip_any, white_space}
use sesame_sdk.Text.Decimal.{decimal, parse_u16}
use sesame_sdk.Client.Send.{split_at, url_parts}
use sesame_sdk.Client.KeyFile.{after}

-- `hostport.split(':').next().unwrap_or(hostport)`
abbrev pub host_of : (hostport : Bytes) → Bytes
host_of hostport = elim (split_at b':' hostport) [ none ↦ hostport | some parts ↦ parts.0 ]

abbrev pub crlf : Bytes
crlf = 13 ∷ 10 ∷ []

-- `for (k, v) in headers { req.push_str(...) }`
unfoldable pub push_headers : (req : Bytes) (headers : List (Bytes × Bytes)) → Bytes
push_headers req [] = req
push_headers req ((k, v) ∷ headers) =
    push_headers (req ++ (k ++ (codes ": " ++ (v ++ crlf)))) headers

-- The buffer `req` before the headers.
unfoldable pub request_head : (host path : Bytes) (content_length : ℕ) → Bytes
request_head host path content_length =
    codes "POST "
    ++ (path
        ++ (codes " HTTP/1.1\r\nHost: "
            ++ (host
                ++ (codes "\r\nContent-Length: "
                    ++ (decimal content_length ++ codes "\r\nConnection: close\r\n")))))

-- All that is written to the stream for a host and a path: the buffer `req`, and the body.
unfoldable pub request_bytes :
    (hostport path : Bytes) (headers : List (Bytes × Bytes)) (body : Bytes) → Bytes
unfolding request_head push_headers
request_bytes hostport path headers body =
    (push_headers (request_head (host_of hostport) path (length body)) headers ++ crlf) ++ body

unfoldable pub request_text : (url : Bytes) (headers : List (Bytes × Bytes)) (body : Bytes) → Bytes
unfolding url_parts request_bytes
request_text url headers body =
    let (hostport, path) = url_parts url in request_bytes hostport path headers body

-- A word that ends; there is none between two spaces.
abbrev pub finish_word : Bytes → List Bytes → List Bytes
finish_word [] later = later
finish_word (b ∷ word) later = (b ∷ word) ∷ later

-- `str::split_whitespace`, where `word` holds what stands since the last white space. Fuel: each
-- round takes a byte at least, and the length of the text is given.
unfoldable pub words_by : (fuel : ℕ) (word s : Bytes) → List Bytes
unfolding strip_any
words_by fuel word [] = finish_word word []
words_by zero word (b ∷ s) = finish_word word []
words_by (suc fuel) word (b ∷ s) = elim (strip_any white_space (b ∷ s)) [
  | none ↦ words_by fuel (word ++ b ∷ []) s
  | some rest ↦ finish_word word (words_by fuel [] rest)
]

abbrev pub second : List Bytes → Option Bytes
second [] = none
second (w ∷ []) = none
second (w ∷ x ∷ ws) = some x

-- `.nth(1).and_then(|s| s.parse().ok()).unwrap_or(0)`, over the text of the response.
unfoldable pub status_of : (text : Bytes) → ℕ
unfolding words_by parse_u16
status_of text = elim (second (words_by (length text) [] text)) [
  | none ↦ 0
  | some w ↦ elim (parse_u16 w) [ none ↦ 0 | some n ↦ n ]
]

-- `str::contains`
unfoldable pub contains : (s needle : Bytes) → Bool
unfolding after
contains s needle = elim (after needle s) [ none ↦ false | some rest ↦ true ]

-- `signed` and `resp_enc`
unfoldable pub response_marks : (text : Bytes) → Bool × Bool
unfolding contains
response_marks text =
    let lower = map to_lower text in
    (contains lower (codes "x-sesame-signature"), contains lower (codes "x-sesame-encrypted: true"))
