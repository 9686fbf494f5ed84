-- ===== src/App/Utils/Mime.antt =====
-- The media type is that of the last extension.
use mini_reactor.Base.{◌≡◌, ◌≢◌, refl, ap, ◌==◌, false, [], ◌∷◌, ◌++◌, some, none, All, arith}
use mini_reactor.Base.Bytes.{lookup}
use mini_reactor.App.Utils.{Text, extension, get_mime_type, mime_types, mime_of, or_plain}

extension-none : (s : Text) → All (λ c. c ≢ b'.') s → extension s ≡ none
unfolding extension
extension-none [] h = refl
extension-none (c ∷ s) h =
    let other : (c == b'.') ≡ false = ground (arith, h.0) in rw (extension-none s h.1, other) refl

extension-append :
    (path s : Text) → All (λ c. c ≢ b'.') s → extension (path ++ (b'.' ∷ s)) ≡ some (b'.' ∷ s)
unfolding extension
extension-append [] s h = rw (extension-none s h) refl
extension-append (c ∷ path) s h = rw (extension-append path s h) refl

-- Whatever stands before it, a name that ends in a known extension, with no other '.' behind its
-- own, has the type of that extension; with an unknown extension it is plain text, and so is a name
-- with no '.'.
pub get_mime_type-append :
    (path s : Text)
    → All (λ c. c ≢ b'.') s
    → (get_mime_type (path ++ (b'.' ∷ s)) ≡ or_plain (lookup (b'.' ∷ s) mime_types))
      × (get_mime_type s ≡ or_plain none)
unfolding get_mime_type
get_mime_type-append path s h =
    (ap mime_of (extension-append path s h), ap mime_of (extension-none s h))
