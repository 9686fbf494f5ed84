-- ===== src/Log/Stream.antt =====
-- The formatting of integers: `LogStream::FormatInteger` of src/log/LogStream.cpp. A number is its
-- sign and its absolute value: dividing a negative number rounds to zero, and the table of digits
-- is symmetric, so that the digits are those of the absolute value.
pub mod Digits
mod Examples
use mini_reactor.Base.{
  ℕ, zero, suc, ◌+◌, ◌-◌, ◌/◌, ◌%◌, ◌==◌, ltb, leb, if◌then◌else◌, List, [], ◌∷◌, ◌++◌, length,
}
use mini_reactor.Base.Bytes.{Signed, plus, minus}

abbrev pub k_small_buffer : ℕ
k_small_buffer = 4000

-- `do { ... } while (i != 0)`: the digits, the lowest first.
unfoldable pub digits : ℕ → ℕ → List ℕ
digits zero i = []
digits (suc fuel) i =
    let rest = digits fuel (i / 10) in (48 + i % 10) ∷ (if i / 10 == 0 then [] else rest)

abbrev pub reverse : List ℕ → List ℕ
reverse [] = []
reverse (x ∷ xs) = reverse xs ++ (x ∷ [])

-- Dividing by ten makes the number smaller, so this fuel is enough.
unfoldable pub text_of : Signed → List ℕ
unfolding digits
text_of (plus n) = reverse (digits (n + 1) n)
text_of (minus zero) = reverse (digits 1 0)
text_of (minus (suc n)) = reverse (digits (suc n + 1) (suc n) ++ (b'-' ∷ []))

-- A buffer with fewer than 32 bytes left takes no number.
unfoldable pub format_integer : Signed → List ℕ → List ℕ
unfolding text_of
format_integer v buffer =
    let avail = k_small_buffer - length buffer in
    if leb 32 avail
    then (if ltb (length (text_of v)) avail then buffer ++ text_of v else buffer)
    else buffer
