-- ===== src/Base/Slices.antt =====
-- A vector's storage: the elements at `lo ≤ i < hi`, writes in place, and `resize`.
use Prim.Native.Nat.{ℕ, zero, suc, ◌+◌, ◌-◌, ◌≤◌}
use mathlib.Core.Path.{◌≡◌, refl, ap}
use mathlib.Core.List.{List, [], ◌∷◌, ◌++◌}
use native.Mathlib.Omega.{arith}
use mini_reactor.Base.Lists.{length, drop}

module _ {ℓ} {A : Type ℓ} where
  abbrev pub slice : ℕ → ℕ → List A → List A
  slice lo hi [] = []
  slice lo zero (x ∷ xs) = []
  slice zero (suc hi) (x ∷ xs) = x ∷ slice zero hi xs
  slice (suc lo) (suc hi) (x ∷ xs) = slice lo hi xs

  -- `std::copy` to position `i`; what lies past the end is not written.
  abbrev pub write_at : List A → ℕ → List A → List A
  write_at [] i new = []
  write_at (x ∷ xs) (suc i) new = x ∷ write_at xs i new
  write_at (x ∷ xs) zero [] = x ∷ xs
  write_at (x ∷ xs) zero (y ∷ ys) = y ∷ write_at xs zero ys

  -- `vector::resize`, with the value that fills new places.
  abbrev pub resize : A → ℕ → List A → List A
  resize fill zero xs = []
  resize fill (suc n) [] = fill ∷ resize fill n []
  resize fill (suc n) (x ∷ xs) = x ∷ resize fill n xs

module _ {ℓ} {A : Type ℓ} where
  pub length-slice :
      (lo hi : ℕ) (xs : List A) → lo ≤ hi → hi ≤ length xs → length (slice lo hi xs) ≡ hi - lo
  length-slice lo hi [] h k = omega arith
  length-slice lo zero (x ∷ xs) h k = omega arith
  length-slice zero (suc hi) (x ∷ xs) h k = omega (arith, length-slice zero hi xs)
  length-slice (suc lo) (suc hi) (x ∷ xs) h k = omega (arith, length-slice lo hi xs)

  pub slice_empty : (i : ℕ) (xs : List A) → slice i i xs ≡ []
  slice_empty i [] = refl
  slice_empty zero (x ∷ xs) = refl
  slice_empty (suc i) (x ∷ xs) = slice_empty i xs

  pub length-write_at :
      (xs : List A) (i : ℕ) (new : List A) → length (write_at xs i new) ≡ length xs
  length-write_at [] i new = refl
  length-write_at (x ∷ xs) (suc i) new = ap suc (length-write_at xs i new)
  length-write_at (x ∷ xs) zero [] = refl
  length-write_at (x ∷ xs) zero (y ∷ ys) = ap suc (length-write_at xs zero ys)

  pub length-resize : (fill : A) (n : ℕ) (xs : List A) → length (resize fill n xs) ≡ n
  length-resize fill zero xs = refl
  length-resize fill (suc n) [] = ap suc (length-resize fill n [])
  length-resize fill (suc n) (x ∷ xs) = ap suc (length-resize fill n xs)

  pub slice_all :
      (end : ℕ) (xs new : List A)
      → end ≡ length new
      → end ≤ length xs
      → slice zero end (write_at xs zero new) ≡ new
  slice_all zero [] [] e h = refl
  slice_all end [] (y ∷ ys) e h = absurd (omega arith)
  slice_all (suc end) [] [] e h = absurd (omega arith)
  slice_all zero (x ∷ xs) [] e h = refl
  slice_all (suc end) (x ∷ xs) [] e h = absurd (omega arith)
  slice_all zero (x ∷ xs) (y ∷ ys) e h = absurd (omega arith)
  slice_all (suc end) (x ∷ xs) (y ∷ ys) e h =
      ap (λ l. y ∷ l) (slice_all end xs ys (omega arith) (omega arith))

  -- What is written at the end of a slice is appended to it.
  pub slice-write_at :
      (lo hi end : ℕ) (xs new : List A)
      → lo ≤ hi
      → end ≡ hi + length new
      → end ≤ length xs
      → slice lo end (write_at xs hi new) ≡ slice lo hi xs ++ new
  slice-write_at lo hi end [] [] h e k = refl
  slice-write_at lo hi end [] (y ∷ ys) h e k = absurd (omega arith)
  slice-write_at lo (suc hi) zero (x ∷ xs) new h e k = absurd (omega arith)
  slice-write_at zero (suc hi) (suc end) (x ∷ xs) new h e k =
      ap (λ l. x ∷ l) (slice-write_at zero hi end xs new (omega arith) (omega arith) (omega arith))
  slice-write_at (suc lo) (suc hi) (suc end) (x ∷ xs) new h e k =
      slice-write_at lo hi end xs new (omega arith) (omega arith) (omega arith)
  slice-write_at zero zero end (x ∷ xs) new h e k =
      slice_all end (x ∷ xs) new (omega arith) (omega arith)
  slice-write_at (suc lo) zero end (x ∷ xs) new h e k = absurd (omega arith)

  pub slice-resize :
      (fill : A) (lo hi n : ℕ) (xs : List A)
      → hi ≤ length xs
      → hi ≤ n
      → slice lo hi (resize fill n xs) ≡ slice lo hi xs
  slice-resize fill lo zero zero [] h k = refl
  slice-resize fill lo zero (suc n) [] h k = refl
  slice-resize fill lo (suc hi) n [] h k = absurd (omega arith)
  slice-resize fill lo zero zero (x ∷ xs) h k = refl
  slice-resize fill lo (suc hi) zero (x ∷ xs) h k = absurd (omega arith)
  slice-resize fill lo zero (suc n) (x ∷ xs) h k = refl
  slice-resize fill zero (suc hi) (suc n) (x ∷ xs) h k =
      ap (λ l. x ∷ l) (slice-resize fill zero hi n xs (omega arith) (omega arith))
  slice-resize fill (suc lo) (suc hi) (suc n) (x ∷ xs) h k =
      slice-resize fill lo hi n xs (omega arith) (omega arith)

  pub drop-slice :
      (lo k from hi : ℕ) (xs : List A)
      → from ≡ lo + k
      → from ≤ hi
      → drop k (slice lo hi xs) ≡ slice from hi xs
  drop-slice lo zero from hi xs e h = ap (λ i. slice i hi xs) {x = lo} {y = from} (omega arith)
  drop-slice lo (suc k) from hi [] e h = refl
  drop-slice lo (suc k) from zero (x ∷ xs) e h = absurd (omega arith)
  drop-slice zero (suc k) zero (suc hi) (x ∷ xs) e h = absurd (omega arith)
  drop-slice (suc lo) (suc k) zero (suc hi) (x ∷ xs) e h = absurd (omega arith)
  drop-slice zero (suc k) (suc from) (suc hi) (x ∷ xs) e h =
      drop-slice zero k from hi xs (omega arith) (omega arith)
  drop-slice (suc lo) (suc k) (suc from) (suc hi) (x ∷ xs) e h =
      drop-slice lo (suc k) from hi xs (omega arith) (omega arith)
