-- ===== src/Client/Lines.antt =====
-- The bytes that `http_post` of examples/sign_request.rs writes, as a reader of HTTP/1.1 messages
-- takes them apart.
use mathlib.Core.List.{append_assoc, append-nil}
use sesame_sdk.Prelude.{
  ℕ, zero, suc, ◌≤◌, ◌≡◌, ◌≢◌, refl, ap, sym, ◌∙◌, Bool, true, not, ◌&&◌, some, List, [], ◌∷◌, ◌++◌,
  length, length-append, All, All-append, eqb, eqb_iff, arith, Bool-cases, inl, inr,
}
use sesame_sdk.Text.{Bytes, codes, strip_prefix}
use sesame_sdk.Text.Decimal.{decimal, IsDigit, decimal-IsDigit}
use sesame_sdk.Client.Send.{url_parts}
use sesame_sdk.Client.Deliver.{split_at_lem}
use sesame_sdk.Client.Post.{crlf, push_headers, request_head, request_bytes, request_text, host_of}
use sesame_sdk.Client.Reader.{read_line, read_field, next_field, read_fields, read_request}

abbrev pub OneLine : Bytes → Type 0
OneLine s = All (λ b. b ≢ 13) s

-- A name and a value that fit in a field.
abbrev pub IsField : Bytes × Bytes → Type 0
IsField f = (f.0 ≢ []) × All (λ b. b ≢ b':') f.0 × OneLine f.0 × OneLine f.1

read_line_lem :
    (line rest : Bytes) → OneLine line → read_line (line ++ 13 ∷ 10 ∷ rest) ≡ some (line, rest)
unfolding read_line
read_line_lem [] rest h = refl
read_line_lem (b ∷ []) rest (p, h) = elim (Bool-cases (eqb b 13)) [
  | inl e ↦ absurd (p ((eqb_iff b 13).0 e))
  | inr e ↦ rw (read_line, e) refl
]
read_line_lem (b ∷ d ∷ line) rest (p, h) = elim (Bool-cases (eqb b 13)) [
  | inl e ↦ absurd (p ((eqb_iff b 13).0 e))
  | inr e ↦ rw (read_line, e, read_line_lem (d ∷ line) rest h) refl
]

abbrev pub line_of : Bytes × Bytes → Bytes
line_of (k, v) = k ++ (codes ": " ++ v)

read_field_lem : (f : Bytes × Bytes) → IsField f → read_field (line_of f) ≡ some f
unfolding read_field strip_prefix
read_field_lem (k, v) (_, names, _, _) = rw (read_field, split_at_lem b':' k (32 ∷ v) names) refl

-- The fields as text.
abbrev pub fields_text : List (Bytes × Bytes) → Bytes
fields_text [] = []
fields_text (f ∷ fields) = line_of f ++ (crlf ++ fields_text fields)

push_headers_lem :
    (req : Bytes) (headers : List (Bytes × Bytes))
    → push_headers req headers ≡ req ++ fields_text headers
unfolding push_headers
push_headers_lem req [] = sym (append-nil req)
push_headers_lem req ((k, v) ∷ headers) =
    push_headers_lem (req ++ (k ++ (codes ": " ++ (v ++ crlf)))) headers ∙ simp append_assoc

line_of-OneLine : (f : Bytes × Bytes) → IsField f → OneLine (line_of f)
line_of-OneLine (k, v) (_, _, h, i) =
    All-append (λ b. b ≢ 13) k (codes ": " ++ v) h
      (λ e. omega (arith, e), (λ e. omega (arith, e), i))

read_fields_step :
    (fuel b : ℕ) (line rest : Bytes) (f : Bytes × Bytes) (fields : List (Bytes × Bytes))
    (body : Bytes)
    → OneLine (b ∷ line)
    → read_field (b ∷ line) ≡ some f
    → read_fields fuel rest ≡ some (fields, body)
    → read_fields (suc fuel) ((b ∷ line) ++ 13 ∷ 10 ∷ rest) ≡ some (f ∷ fields, body)
unfolding read_fields
read_fields_step fuel b line rest f fields body h i j =
    rw (read_fields, read_line_lem (b ∷ line) rest h, j, next_field, i) refl

read_fields_lem :
    (fuel : ℕ) (fields : List (Bytes × Bytes)) (body : Bytes)
    → suc (length fields) ≤ fuel
    → All IsField fields
    → read_fields fuel (fields_text fields ++ (crlf ++ body)) ≡ some (fields, body)
unfolding read_fields next_field
read_fields_lem zero fields body h all = absurd (omega arith)
read_fields_lem (suc fuel) [] body h all = unfold read_line in refl
read_fields_lem (suc fuel) (([], v) ∷ fields) body h ((empty, _, _, _), all) = absurd (empty refl)
read_fields_lem (suc fuel) ((b ∷ k, v) ∷ fields) body h (one, all) =
    ap (read_fields (suc fuel))
      (append_assoc (line_of (b ∷ k, v)) (crlf ++ fields_text fields) (crlf ++ body))
    ∙ read_fields_step fuel b (k ++ (codes ": " ++ v)) (fields_text fields ++ (crlf ++ body))
        (b ∷ k, v) fields body (line_of-OneLine (b ∷ k, v) one) (read_field_lem (b ∷ k, v) one)
        (read_fields_lem fuel fields body (omega arith) all)

length-fields_text : (fields : List (Bytes × Bytes)) → length fields ≤ length (fields_text fields)
length-fields_text [] = omega arith
length-fields_text (f ∷ fields) =
    omega (arith, length-append (line_of f) (crlf ++ fields_text fields), length-fields_text fields)

-- The three fields that the client writes first.
abbrev pub own_fields : (host body : Bytes) → List (Bytes × Bytes)
own_fields host body =
    (codes "Host", host)
    ∷ (codes "Content-Length", decimal (length body))
    ∷ (codes "Connection", codes "close")
    ∷ []

digits-OneLine : (s : Bytes) → All IsDigit s → OneLine s
digits-OneLine [] h = tt
digits-OneLine (b ∷ s) ((low, high), h) = (λ e. omega (arith, e), digits-OneLine s h)

read_request_lem :
    (line : Bytes) (fields : List (Bytes × Bytes)) (body : Bytes)
    → OneLine line
    → All IsField fields
    → read_request (line ++ 13 ∷ 10 ∷ (fields_text fields ++ (crlf ++ body)))
      ≡ some (record { request_line = line; fields = fields; body = body })
unfolding read_request
read_request_lem line fields body h all =
    rw
      (
        read_request,
        read_line_lem line (fields_text fields ++ (crlf ++ body)) h,
        read_fields_lem (length (fields_text fields ++ (crlf ++ body))) fields body
            (omega
              (arith, length-append (fields_text fields) (crlf ++ body), length-fields_text fields))
            all,
      )
      refl

abbrev pub lacks : ℕ → Bytes → Bool
lacks c [] = true
lacks c (b ∷ s) = not (eqb b c) && lacks c s

pub lacks_sound : (c : ℕ) (s : Bytes) → lacks c s ≡ true → All (λ b. b ≢ c) s
lacks_sound c [] h = tt
lacks_sound c (b ∷ s) h = (λ e. ground arith, lacks_sound c s (ground arith))

cons_not_nil : (b : ℕ) (s : Bytes) → (b ∷ s) ≢ []
cons_not_nil b s e = cc

pub literal-IsField :
    (b : ℕ) (k v : Bytes)
    → lacks b':' (b ∷ k) ≡ true
    → lacks 13 (b ∷ k) ≡ true
    → OneLine v
    → IsField (b ∷ k, v)
literal-IsField b k v h i j =
    (cons_not_nil b k, lacks_sound b':' (b ∷ k) h, lacks_sound 13 (b ∷ k) i, j)

own_fields-IsField : (host body : Bytes) → OneLine host → All IsField (own_fields host body)
own_fields-IsField host body h = (
  literal-IsField b'H' (codes "ost") host refl refl h,
  (
    literal-IsField b'C' (codes "ontent-Length") (decimal (length body)) refl refl
        (digits-OneLine (decimal (length body)) (decimal-IsDigit (length body))),
    (
      literal-IsField b'C' (codes "onnection") (codes "close") refl refl
          (lacks_sound 13 (codes "close") refl),
      tt,
    ),
  ),
)

request_text_lem :
    (url hostport path : Bytes) (headers : List (Bytes × Bytes)) (body : Bytes)
    → url_parts url ≡ (hostport, path)
    → request_text url headers body
      ≡ (codes "POST " ++ (path ++ codes " HTTP/1.1"))
        ++ 13 ∷ 10 ∷ (fields_text (own_fields (host_of hostport) body ++ headers) ++ (crlf ++ body))
unfolding request_text request_bytes request_head
request_text_lem url hostport path headers body parts =
    ap (λ (p : Bytes × Bytes). request_bytes p.0 p.1 headers body) parts
    ∙ grouped (host_of hostport)
  where
    grouped :
        (host : Bytes)
        → (push_headers (request_head host path (length body)) headers ++ crlf) ++ body
          ≡ (codes "POST " ++ (path ++ codes " HTTP/1.1"))
            ++ 13 ∷ 10 ∷ (fields_text (own_fields host body ++ headers) ++ (crlf ++ body))
    grouped host =
        rw (push_headers_lem (request_head host path (length body)) headers) (simp append_assoc)

-- A reader of HTTP/1.1 gets back the path in the request line, the host and the length of the body
-- in their fields, the headers in their order, and the body, whatever its bytes. It is for a
-- path, a host and values without carriage returns, and names that are not empty, without carriage
-- returns and colons.
pub read_request-request_text :
    (url hostport path : Bytes) (headers : List (Bytes × Bytes)) (body : Bytes)
    → url_parts url ≡ (hostport, path)
    → OneLine path
    → OneLine (host_of hostport)
    → All IsField headers
    → read_request (request_text url headers body)
      ≡ some (record {
        request_line = codes "POST " ++ (path ++ codes " HTTP/1.1");
        fields = own_fields (host_of hostport) body ++ headers;
        body = body;
      })
unfolding read_request request_text
read_request-request_text url hostport path headers body parts path_line host_line all =
    ap read_request (request_text_lem url hostport path headers body parts)
    ∙ read_request_lem (codes "POST " ++ (path ++ codes " HTTP/1.1"))
        (own_fields (host_of hostport) body ++ headers) body
        (All-append (λ b. b ≢ 13) (codes "POST ") (path ++ codes " HTTP/1.1")
          (lacks_sound 13 (codes "POST ") refl)
          (All-append (λ b. b ≢ 13) path (codes " HTTP/1.1") path_line
            (lacks_sound 13 (codes " HTTP/1.1") refl)))
        (All-append IsField (own_fields (host_of hostport) body) headers
          (own_fields-IsField (host_of hostport) body host_line) all)
