-- ===== src/Canonical/Injective.antt =====
-- The canonical strings as lines: distinct fields give distinct strings.
use mathlib.Core.List.{append_assoc}
use sesame_sdk.Prelude.{
  ◌≡◌, ◌≢◌, refl, sym, ◌∙◌, Option, none, some, List, [], ◌∷◌, ◌++◌, arith, All,
}
use sesame_sdk.Text.{Bytes, codes}
use sesame_sdk.Canonical.{request_canonical, response_canonical}

-- A field that is one line: it holds no line feed.
abbrev pub IsLine : Bytes → Type 0
IsLine = All (λ c. c ≢ b'\n')

-- The scope, if there is one, is a line.
abbrev pub IsLine? : Option Bytes → Type 0
IsLine? none = Unit
IsLine? (some scope) = IsLine scope

-- The lines joined by line feeds: the ABNF of the signing string.
unfoldable pub join_lines : List Bytes → Bytes
join_lines [] = []
join_lines (x ∷ []) = x
join_lines (x ∷ y ∷ xs) = x ++ b'\n' ∷ join_lines (y ∷ xs)

abbrev pub scope_lines : Option Bytes → List Bytes
scope_lines none = []
scope_lines (some scope) = scope ∷ []

line_split :
    (a b r s : Bytes) → IsLine a → IsLine b → a ++ b'\n' ∷ r ≡ b ++ b'\n' ∷ s → (a ≡ b) × (r ≡ s)
line_split [] [] r s h k e = (refl, cc)
line_split [] (c ∷ b) r s h (k, _) e = absurd (k (cc))
line_split (c ∷ a) [] r s (h, _) k e = absurd (h (cc))
line_split (c ∷ a) (d ∷ b) r s (_, h) (_, k) e = let (p, q) = line_split a b r s h k (cc) in (cc, q)

line_ends : (a b s : Bytes) → IsLine a → IsLine b → a ≡ b ++ b'\n' ∷ s → ⊥
line_ends [] [] s h k e = cc
line_ends [] (c ∷ b) s h k e = cc
line_ends (c ∷ a) [] s (h, _) k e = h (cc)
line_ends (c ∷ a) (d ∷ b) s (_, h) (_, k) e = line_ends a b s h k (cc)

-- Lists of lines, none empty, that join to one text are one list.
pub join_lines_injective :
    (x y : Bytes) (xs ys : List Bytes)
    → All IsLine (x ∷ xs)
    → All IsLine (y ∷ ys)
    → join_lines (x ∷ xs) ≡ join_lines (y ∷ ys)
    → ◌≡◌ {A = List Bytes} (x ∷ xs) (y ∷ ys)
unfolding join_lines
join_lines_injective x y [] [] h k e = cc
join_lines_injective x y [] (z ∷ ys) (h, _) (k, _) e = absurd (line_ends x y _ h k e)
join_lines_injective x y (w ∷ xs) [] (h, _) (k, _) e = absurd (line_ends y x _ k h (sym e))
join_lines_injective x y (w ∷ xs) (z ∷ ys) (h, hs) (k, ks) e =
    let (p, q) = line_split x y _ _ h k e in let r = join_lines_injective w z xs ys hs ks q in cc

-- The request string is its five or six lines, joined.
pub request_canonical-eq-join_lines :
    (method path timestamp nonce body_hash : Bytes) (scope : Option Bytes)
    → request_canonical method path timestamp nonce body_hash scope
      ≡ join_lines (method ∷ path ∷ timestamp ∷ nonce ∷ body_hash ∷ scope_lines scope)
unfolding request_canonical join_lines
request_canonical-eq-join_lines m p t n b none = simp append_assoc
request_canonical-eq-join_lines m p t n b (some s) = simp append_assoc

-- The response string is the word RESPONSE and its four or five lines, joined.
pub response_canonical-eq-join_lines :
    (correlation timestamp nonce body_hash : Bytes) (scope : Option Bytes)
    → response_canonical correlation timestamp nonce body_hash scope
      ≡ join_lines
          (codes "RESPONSE" ∷ correlation ∷ timestamp ∷ nonce ∷ body_hash ∷ scope_lines scope)
unfolding response_canonical join_lines
response_canonical-eq-join_lines c t n b none = simp append_assoc
response_canonical-eq-join_lines c t n b (some s) = simp append_assoc

pub scope_lines-IsLine : (scope : Option Bytes) → IsLine? scope → All IsLine (scope_lines scope)
scope_lines-IsLine none h = tt
scope_lines-IsLine (some s) h = (h, tt)

pub scope_lines_injective : (r s : Option Bytes) → scope_lines r ≡ scope_lines s → r ≡ s
scope_lines_injective none none e = refl
scope_lines_injective none (some s) e = cc
scope_lines_injective (some r) none e = cc
scope_lines_injective (some r) (some s) e = cc

-- The six fields of a request's signing string.
pub record Signed : Type 0 where
  pub method : Bytes
  pub path : Bytes
  pub timestamp : Bytes
  pub nonce : Bytes
  pub body_hash : Bytes
  pub scope : Option Bytes

abbrev pub canonical_of : Signed → Bytes
canonical_of r = request_canonical r.method r.path r.timestamp r.nonce r.body_hash r.scope

-- Each field is one line.
pub record IsLines (r : Signed) : Type 0 where
  pub method : IsLine r.method
  pub path : IsLine r.path
  pub timestamp : IsLine r.timestamp
  pub nonce : IsLine r.nonce
  pub body_hash : IsLine r.body_hash
  pub scope : IsLine? r.scope

abbrev lines : Signed → List Bytes
lines r = r.method ∷ r.path ∷ r.timestamp ∷ r.nonce ∷ r.body_hash ∷ scope_lines r.scope

lines-IsLine : {r : Signed} → IsLines r → All IsLine (lines r)
lines-IsLine {r} h = (
  h.method,
  (h.path, (h.timestamp, (h.nonce, (h.body_hash, scope_lines-IsLine r.scope h.scope)))),
)

lines_injective : (r s : Signed) → lines r ≡ lines s → r ≡ s
lines_injective r s e =
    let p : scope_lines r.scope ≡ scope_lines s.scope = cc in
    let q = scope_lines_injective r.scope s.scope p in ground arith

-- If no field of two requests holds a line feed and their signing strings are equal, then all six
-- fields are equal, the presence of the scope included.
pub request_canonical_injective :
    (r s : Signed) → IsLines r → IsLines s → canonical_of r ≡ canonical_of s → r ≡ s
request_canonical_injective r s h k e = lines_injective r s (
    join_lines_injective r.method s.method _ _ (lines-IsLine h) (lines-IsLine k) (
      sym (request_canonical-eq-join_lines r.method r.path r.timestamp r.nonce r.body_hash r.scope)
      ∙ e
      ∙ request_canonical-eq-join_lines s.method s.path s.timestamp s.nonce s.body_hash s.scope))

-- A request whose fields hold no line feed and whose method is not RESPONSE never has the signing
-- string of a response with a correlation, timestamp, nonce, body hash and scope free of line feeds.
pub request_canonical-ne-response_canonical :
    (r : Signed) (correlation timestamp nonce body_hash : Bytes) (scope : Option Bytes)
    → IsLines r
    → r.method ≢ codes "RESPONSE"
    → All IsLine (correlation ∷ timestamp ∷ nonce ∷ body_hash ∷ [])
    → IsLine? scope
    → canonical_of r ≢ response_canonical correlation timestamp nonce body_hash scope
request_canonical-ne-response_canonical r c t n b scope h ne (hc, (ht, (hn, (hb, _)))) hs e = ne (
    let p =
      join_lines_injective r.method (codes "RESPONSE") _ _ (lines-IsLine h)
        (response_word, (hc, (ht, (hn, (hb, scope_lines-IsLine scope hs)))))
        (sym (
            request_canonical-eq-join_lines r.method r.path r.timestamp r.nonce r.body_hash r.scope)
          ∙ e
          ∙ response_canonical-eq-join_lines c t n b scope) in
    cc)
  where
    response_word : IsLine (codes "RESPONSE")
    response_word = omega arith
