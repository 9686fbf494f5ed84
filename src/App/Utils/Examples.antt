-- ===== src/App/Utils/Examples.antt =====
-- A form value and two file names.
use mini_reactor.Base.{ℕ, ◌≡◌, ◌++◌, leb, ◌&&◌, refl, Bool, arith, none}
use mini_reactor.Base.Bytes.{codes, lookup}
use mini_reactor.App.Utils.{url_decode, get_mime_type, or_plain}
use mini_reactor.App.Utils.Decoding.{url_encode, url_decode-encode}
use mini_reactor.App.Utils.Mime.{get_mime_type-append}

abbrev letters : ℕ → Bool
letters c = leb 97 c && leb c 122

url_decode-encode_example : url_decode (url_encode letters (codes "a b&c%")) ≡ codes "a b&c%"
url_decode-encode_example = url_decode-encode letters (codes "a b&c%") refl refl (omega arith)

form : url_encode letters (codes "a b&c%") ≡ codes "a+b%26c%25"
form = refl

get_mime_type-append_example :
    (get_mime_type (codes "/a.b/index" ++ codes ".html") ≡ codes "text/html; charset=utf-8")
    × (get_mime_type (codes "html") ≡ or_plain none)
unfolding lookup
get_mime_type-append_example =
    get_mime_type-append (codes "/a.b/index") (codes "html") (omega arith)
