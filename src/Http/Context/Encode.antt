-- ===== src/Http/Context/Encode.antt =====
-- How a client writes a request, and which requests the parser can give back.
use mini_reactor.Base.{ℕ, ◌≡◌, ◌⊎◌, true, List, [], ◌∷◌, ◌++◌, none, some, length, map}
use mini_reactor.Base.Bytes.{Lacks, plus, to_lower, skip_space, lookup}
use mini_reactor.Net.Buffer.{search_crlf}
use mini_reactor.Http.Context.{
  Headers, HttpRequest, expect_body, got_all, after_headers, expect_body_len,
}

abbrev pub target_of : List ℕ → List ℕ → List ℕ
target_of path [] = path
target_of path (c ∷ query) = path ++ b'?' ∷ c ∷ query

abbrev pub request_line : HttpRequest → List ℕ
request_line r = r.method ++ 32 ∷ (target_of r.path r.query ++ 32 ∷ r.version)

abbrev pub header_line : List ℕ → List ℕ → List ℕ
header_line key value = key ++ b':' ∷ 32 ∷ value

-- The header lines, the blank line and what follows.
unfoldable pub encode_headers : Headers → List ℕ → List ℕ
encode_headers [] rest = 13 ∷ 10 ∷ rest
encode_headers ((key, value) ∷ headers) rest =
    header_line key value ++ 13 ∷ 10 ∷ encode_headers headers rest

-- The request, with what follows it.
unfoldable pub encode : HttpRequest → List ℕ → List ℕ
unfolding encode_headers
encode r rest = request_line r ++ 13 ∷ 10 ∷ encode_headers r.headers (r.body ++ rest)

-- Lower-case keys without a colon, each once, and values that do not start with white space.
abbrev pub AreCanonical : Headers → Headers → Type 0
AreCanonical seen [] = Unit
AreCanonical seen ((key, value) ∷ headers) =
    Lacks b':' key
    × (map to_lower key ≡ key)
    × (skip_space value ≡ value)
    × (search_crlf (header_line key value) ≡ none)
    × (lookup key seen ≡ none)
    × AreCanonical (seen ++ (key, value) ∷ []) headers

-- The length field says how long the body is.
abbrev pub IsFramed : Headers → List ℕ → Type 0
IsFramed headers body =
    ((after_headers headers ≡ (true, got_all)) × (body ≡ []))
    ⊎ ((after_headers headers ≡ (true, expect_body))
        × (expect_body_len headers ≡ some (plus (length body))))

pub record HasLines (r : HttpRequest) : Type 0 where
  pub method : Lacks 32 r.method
  pub target : Lacks 32 (target_of r.path r.query)
  pub path : Lacks b'?' r.path
  pub line : search_crlf (request_line r) ≡ none
  pub headers : AreCanonical [] r.headers

pub record IsEncodable (r : HttpRequest) : Type 0 where
  pub lines : HasLines r
  pub framed : IsFramed r.headers r.body
