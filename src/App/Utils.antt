-- ===== src/App/Utils.antt =====
-- The text helpers of the application: app/common/AppUtils.h and AppUtils.cpp.
pub mod Decoding
pub mod Mime
mod Examples
use mini_reactor.Base.{
  ℕ, zero, suc, ◌+◌, ◌-◌, ◌*◌, ◌==◌, ltb, leb, if◌then◌else◌, Bool, true, false, ◌&&◌, List, [],
  ◌∷◌, ◌++◌, Option, none, some,
}
use mini_reactor.Base.Bytes.{codes, lookup}

abbrev pub Text : Type 0
Text = List ℕ

unfoldable pub hex_to_char : ℕ → ℕ
hex_to_char c =
    if leb 65 c && leb c 70
    then c - 65 + 10
    else if leb 97 c && leb c 102
    then c - 97 + 10
    else if leb 48 c && leb c 57
    then c - 48
    else 0

-- A '%' with fewer than two bytes behind it stands for itself.
unfoldable pub url_decode : Text → Text
unfolding hex_to_char
url_decode [] = []
url_decode (c ∷ []) = (if c == 43 then 32 else c) ∷ []
url_decode (c ∷ d ∷ []) = (if c == 43 then 32 else c) ∷ (if d == 43 then 32 else d) ∷ []
url_decode (c ∷ high ∷ low ∷ s) = elim (c == 43) [
  | true ↦ 32 ∷ url_decode (high ∷ low ∷ s)
  | false ↦ elim (c == 37) [
    | true ↦ (hex_to_char high * 16 + hex_to_char low) ∷ url_decode s
    | false ↦ c ∷ url_decode (high ∷ low ∷ s)
  ]
]

abbrev pub mime_types : List (Text × Text)
mime_types =
    (codes ".html", codes "text/html; charset=utf-8")
    ∷ (codes ".css", codes "text/css; charset=utf-8")
    ∷ (codes ".js", codes "application/javascript; charset=utf-8")
    ∷ (codes ".png", codes "image/png")
    ∷ (codes ".jpg", codes "image/jpeg")
    ∷ (codes ".gif", codes "image/gif")
    ∷ (codes ".ico", codes "image/x-icon")
    ∷ (codes ".svg", codes "image/svg+xml")
    ∷ (codes ".json", codes "application/json; charset=utf-8")
    ∷ []

-- From the last '.' on, if there is one.
unfoldable pub extension : Text → Option Text
extension [] = none
extension (c ∷ s) = elim (extension s) [
  | some ext ↦ some ext
  | none ↦ if c == b'.' then some (c ∷ s) else none
]

abbrev pub or_plain : Option Text → Text
or_plain (some mime) = mime
or_plain none = codes "text/plain; charset=utf-8"

abbrev pub mime_of : Option Text → Text
mime_of none = or_plain none
mime_of (some ext) = or_plain (lookup ext mime_types)

unfoldable pub get_mime_type : Text → Text
unfolding extension lookup
get_mime_type path = mime_of (extension path)
