-- ===== src/Base/Bytes/Laws.antt =====
-- Laws of byte strings.
use Prim.Native.Nat.{ℕ, ◌≤◌}
use mathlib.Core.Path.{◌≡◌, refl}
use mathlib.Core.Logic.{◌≢◌, ◌↔◌}
use mathlib.Core.Bool.{true}
use mathlib.Core.Option.{some}
use mathlib.Core.List.{List, [], ◌∷◌, ◌++◌}
use native.Mathlib.Omega.{arith}
use mini_reactor.Base.Tests.{if◌then◌else◌}
use mini_reactor.Base.Lists.{length}
use mini_reactor.Base.Bytes.Defs.{bytes_eq, find_byte, lookup, insert}

pub bytes_eq_refl : (s : List ℕ) → bytes_eq s s ≡ true
unfolding bytes_eq
bytes_eq_refl [] = refl
bytes_eq_refl (x ∷ xs) = ground (arith, bytes_eq_refl xs)

pub eq_of_bytes_eq : (s t : List ℕ) → bytes_eq s t ≡ true → s ≡ t
unfolding bytes_eq
eq_of_bytes_eq [] [] h = refl
eq_of_bytes_eq [] (y ∷ ys) h = cc
eq_of_bytes_eq (x ∷ xs) [] h = cc
eq_of_bytes_eq (x ∷ xs) (y ∷ ys) h = ground (arith, eq_of_bytes_eq xs ys)

pub bytes_eq_iff : (s t : List ℕ) → (bytes_eq s t ≡ true) ↔ (s ≡ t)
bytes_eq_iff s t = (eq_of_bytes_eq s t, λ e. subst_eq e)
  where
    subst_eq : s ≡ t → bytes_eq s t ≡ true
    subst_eq e = rw e (bytes_eq_refl t)

-- No byte of the string is `c`.
abbrev pub Lacks : ℕ → List ℕ → Type 0
Lacks c [] = Unit
Lacks c (x ∷ xs) = (x ≢ c) × Lacks c xs

pub find_byte-le : (c : ℕ) (s : List ℕ) → find_byte c s ≤ length s
unfolding find_byte
find_byte-le c [] = omega arith
find_byte-le c (x ∷ xs) = ground (arith, find_byte-le c xs)

pub find_byte_of_Lacks : (c : ℕ) (s : List ℕ) → Lacks c s → find_byte c s ≡ length s
unfolding find_byte
find_byte_of_Lacks c [] h = refl
find_byte_of_Lacks c (x ∷ xs) h = ground (arith, find_byte_of_Lacks c xs h.1)

pub find_byte-append : (c : ℕ) (s t : List ℕ) → Lacks c s → find_byte c (s ++ c ∷ t) ≡ length s
unfolding find_byte
find_byte-append c [] t h = ground arith
find_byte-append c (x ∷ xs) t h = ground (arith, find_byte-append c xs t h.1)

module _ {ℓ} {V : Type ℓ} where
  pub lookup-insert :
      (k j : List ℕ) (v : V) (m : List (List ℕ × V))
      → lookup j (insert k v m) ≡ (if bytes_eq k j then some v else lookup j m)
  unfolding lookup insert
  lookup-insert k j v [] = refl
  lookup-insert k j v ((i, w) ∷ m) =
      ground (arith, bytes_eq_iff k j, bytes_eq_iff i k, bytes_eq_iff i j, lookup-insert k j v m)
