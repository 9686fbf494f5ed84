-- ===== src/Base/Bytes/Defs.antt =====
-- Byte strings (`std::string`) as lists of numbers, and the C++ library's functions on them.
use Prim.Native.Nat.{ℕ, suc, ◌+◌, ◌-◌, ◌*◌, ◌^◌}
use Prim.Native.Char.{code}
use Prim.Native.String.{String}
use mathlib.Core.Bool.{Bool, true, false, ◌&&◌, ◌||◌}
use mathlib.Core.Option.{Option, none, some}
use mathlib.Core.List.{List, [], ◌∷◌}
use mini_reactor.Base.Tests.{ltb, leb, ◌==◌, if◌then◌else◌}

-- The bytes of an ASCII literal.
abbrev pub codes : String → List ℕ
codes String.[] = []
codes (String.◌∷◌ c s) = code c ∷ codes s

unfoldable pub bytes_eq : List ℕ → List ℕ → Bool
bytes_eq [] [] = true
bytes_eq (x ∷ xs) (y ∷ ys) = x == y && bytes_eq xs ys
bytes_eq _ _ = false

-- `std::find`: the offset of the first `c`, or the length.
unfoldable pub find_byte : ℕ → List ℕ → ℕ
find_byte c [] = 0
find_byte c (x ∷ xs) = if x == c then 0 else suc (find_byte c xs)

-- `std::isspace`, `isdigit` and `tolower` in the "C" locale.
unfoldable pub is_space : ℕ → Bool
is_space c = c == 32 || (leb 9 c && leb c 13)

unfoldable pub is_digit : ℕ → Bool
is_digit c = leb 48 c && leb c 57

unfoldable pub to_lower : ℕ → ℕ
to_lower c = if leb 65 c && leb c 90 then c + 32 else c

unfoldable pub skip_space : List ℕ → List ℕ
unfolding is_space
skip_space [] = []
skip_space (c ∷ s) = if is_space c then skip_space s else c ∷ s

-- The digits at the head of a text, on top of the value read so far.
unfoldable pub read_digits : ℕ → List ℕ → ℕ
unfolding is_digit
read_digits acc [] = acc
read_digits acc (c ∷ s) =
    let longer = read_digits (acc * 10 + (c - 48)) s in if is_digit c then longer else acc

-- An `int`: its sign, and its absolute value.
pub data Signed : Type 0 where
  plus minus : ℕ → Signed

abbrev unsigned_int : List ℕ → Bool → Option Signed
unsigned_int [] negative = none
unsigned_int (c ∷ s) negative =
    let n = read_digits 0 (c ∷ s) in
    if is_digit c
    then if negative
      then if leb n (2 ^ 31) then some (minus n) else none
      else if ltb n (2 ^ 31)
      then some (plus n)
      else none
    else none

abbrev signed_int : List ℕ → Option Signed
signed_int [] = none
signed_int (c ∷ s) =
    if c == 45
    then unsigned_int s true
    else if c == 43
    then unsigned_int s false
    else unsigned_int (c ∷ s) false

-- `std::stoi`; `none` stands for its two exceptions.
unfoldable pub stoi : List ℕ → Option Signed
unfolding skip_space read_digits is_digit
stoi s = signed_int (skip_space s)

-- `unordered_map<string, V>` with its `find` and `operator[] =`.
module _ {ℓ} {V : Type ℓ} where
  unfoldable pub lookup : List ℕ → List (List ℕ × V) → Option V
  unfolding bytes_eq
  lookup k [] = none
  lookup k ((j, v) ∷ m) = if bytes_eq j k then some v else lookup k m

  unfoldable pub insert : List ℕ → V → List (List ℕ × V) → List (List ℕ × V)
  unfolding bytes_eq
  insert k v [] = (k, v) ∷ []
  insert k v ((j, w) ∷ m) = if bytes_eq j k then (k, v) ∷ m else (j, w) ∷ insert k v m
