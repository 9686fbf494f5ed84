-- ===== src/Net/Buffer/Crlf.antt =====
-- `FindCRLF` finds the first "\r\n", and more bytes behind do not move it.
use mini_reactor.Base.{
  ℕ, zero, suc, ◌+◌, ◌≤◌, ◌≡◌, refl, List, [], ◌∷◌, ◌++◌, length, arith, none, some,
}
use mini_reactor.Net.Buffer.{search_crlf}

pub search_crlf-append :
    (s t : List ℕ) (i : ℕ) → search_crlf s ≡ some i → search_crlf (s ++ t) ≡ some i
unfolding search_crlf
search_crlf-append [] t i h = cc
search_crlf-append (c ∷ []) t i h = cc
search_crlf-append (c ∷ d ∷ s) t zero h = ground (arith, search_crlf-append (d ∷ s) t zero)
search_crlf-append (c ∷ d ∷ s) t (suc i) h = ground (arith, search_crlf-append (d ∷ s) t i)

pub search_crlf-le : (s : List ℕ) (i : ℕ) → search_crlf s ≡ some i → i + 2 ≤ length s
unfolding search_crlf
search_crlf-le [] i h = cc
search_crlf-le (c ∷ []) i h = cc
search_crlf-le (c ∷ d ∷ s) zero h = omega arith
search_crlf-le (c ∷ d ∷ s) (suc i) h = ground (arith, search_crlf-le (d ∷ s) i)

-- A line with no "\r\n" in it ends at the "\r\n" that follows it.
pub search_crlf-line :
    (line rest : List ℕ)
    → search_crlf line ≡ none
    → search_crlf (line ++ 13 ∷ 10 ∷ rest) ≡ some (length line)
unfolding search_crlf
search_crlf-line [] rest h = refl
search_crlf-line (c ∷ []) rest h = ground arith
search_crlf-line (c ∷ d ∷ s) rest h = ground (arith, search_crlf-line (d ∷ s) rest)
