-- ===== src/Net/Server/Descriptors/Lists.antt =====
-- Taking an element from a list.
use mini_reactor.Base.{
  ℕ, ◌+◌, ◌<◌, ◌==◌, ◌≡◌, refl, ◌∙◌, Option, none, some, List, [], ◌∷◌, ◌++◌, All, if_holds,
  if_cases, arith,
}
use mini_reactor.Net.Server.{
  EventLoop, Handle, Functor, establishes, erases, destroys, put, remove, same, first_of, up_with,
}
use mini_reactor.Net.Server.Descriptors.{
  hit, count, self, fd_of, up_fd, IsRegistered, Fits, FitsItem,
}

pub count-append :
    {A : Type 0} (number : A → ℕ) (y : ℕ) (xs ys : List A)
    → count number y (xs ++ ys) ≡ count number y xs + count number y ys
count-append number y [] ys = omega arith
count-append number y (a ∷ xs) ys = let h = count-append number y xs ys in omega (arith, h)

pub All-append :
    {A : Type 0} (P : A → Type 0) (xs ys : List A) → All P xs → All P ys → All P (xs ++ ys)
All-append P [] ys h k = k
All-append P (a ∷ xs) ys h k = (h.0, All-append P xs ys h.1 k)

-- An element, and what a list is without it.
pub record Splits {A : Type 0} (number : A → ℕ) (P : A → Type 0) (xs : List A) (a : A)
    (rest : List A) : Type 0 where
  pub counts : (y : ℕ) → count number y xs ≡ hit (number a) y + count number y rest
  pub keeps : All P xs → P a × All P rest

Splits-there :
    {A : Type 0} (number : A → ℕ) (P : A → Type 0) (xs : List A) (a b : A) (rest : List A)
    → Splits number P xs a rest
    → Splits number P (b ∷ xs) a (b ∷ rest)
Splits-there number P xs a b rest h = record {
  counts = λ y. let k = h.counts y in omega (arith, k);
  keeps = λ all. let (here, others) = h.keeps all.1 in (here, (all.0, others));
}

abbrev pub Takes :
    (ℕ → Option Handle)
    → EventLoop
    → List (EventLoop × Functor)
    → Option (Functor × List (EventLoop × Functor))
    → Type 0
Takes m l q none = Unit
Takes m l q (some (f, rest)) = Splits fd_of (FitsItem m) q (l, f) rest

pub first_of-Takes :
    (m : ℕ → Option Handle) (l : EventLoop) (q : List (EventLoop × Functor))
    → Takes m l q (first_of l q)
first_of-Takes m l [] = tt
first_of-Takes m l ((k, f) ∷ q) =
    if_holds (Takes m l ((k, f) ∷ q)) (same l k) (some (f, q)) _
      (record { counts = λ y. refl; keeps = λ all. all })
      (there (first_of l q) (first_of-Takes m l q))
  where
    there :
        (o : Option (Functor × List (EventLoop × Functor)))
        → Takes m l q o
        → Takes m l ((k, f) ∷ q) (elim o [ none ↦ none | some (g, rest) ↦ some (g, (k, f) ∷ rest) ])
    there none h = tt
    there (some (g, rest)) h = Splits-there fd_of (FitsItem m) q (l, g) (k, f) rest h

abbrev pub TakesUp : (ℕ → Option Handle) → List Handle → Option (Handle × List Handle) → Type 0
TakesUp m cs none = Unit
TakesUp m cs (some (c, rest)) = Splits up_fd (IsRegistered m) cs c rest

pub up_with-TakesUp :
    (m : ℕ → Option Handle) (fd : ℕ) (cs : List Handle) → TakesUp m cs (up_with fd cs)
up_with-TakesUp m fd [] = tt
up_with-TakesUp m fd (c ∷ cs) =
    if_holds (TakesUp m (c ∷ cs)) (fd == c.fd) (some (c, cs)) _
      (record { counts = λ y. refl; keeps = λ all. all })
      (there (up_with fd cs) (up_with-TakesUp m fd cs))
  where
    there :
        (o : Option (Handle × List Handle))
        → TakesUp m cs o
        → TakesUp m (c ∷ cs) (elim o [ none ↦ none | some (d, rest) ↦ some (d, c ∷ rest) ])
    there none h = tt
    there (some (d, rest)) h = Splits-there up_fd (IsRegistered m) cs d c rest h

pub count-remove :
    (x y : ℕ) (l : List ℕ)
    → 0 < count self x l
    → count self y l ≡ hit x y + count self y (remove x l)
count-remove x y [] h = absurd (omega arith)
count-remove x y (z ∷ l) h =
    if_cases (λ r. count self y (z ∷ l) ≡ hit x y + count self y r) (x == z) l (z ∷ remove x l)
      (λ e. ground arith) (λ e. let k = count-remove x y l (ground arith) in ground (arith, k))

put-other : (x y : ℕ) (v : Option Handle) (m : ℕ → Option Handle) → hit y x ≡ 0 → put x v m y ≡ m y
put-other x y v m h =
    if_cases (λ r. r ≡ m y) (y == x) v (m y) (λ e. absurd (ground arith)) (λ e. refl)

pub put-own : (x : ℕ) (v : Option Handle) (m : ℕ → Option Handle) → put x v m x ≡ v
put-own x v m = if_cases (λ r. r ≡ v) (x == x) v (m x) (λ e. refl) (λ e. absurd (ground arith))

-- A key of the map that no one has may change.
pub put-Registered :
    (x : ℕ) (v : Option Handle) (m : ℕ → Option Handle) (cs : List Handle)
    → count up_fd x cs ≡ 0
    → All (IsRegistered m) cs
    → All (IsRegistered (put x v m)) cs
put-Registered x v m [] h all = tt
put-Registered x v m (c ∷ cs) h all = (
  put-other x c.fd v m (omega (arith, h)) ∙ all.0,
  put-Registered x v m cs (omega (arith, h)) all.1,
)

pub put-Queued :
    (x : ℕ) (v : Option Handle) (m : ℕ → Option Handle) (q : List (EventLoop × Functor))
    → count fd_of x q ≡ 0
    → All (FitsItem m) q
    → All (FitsItem (put x v m)) q
put-Queued x v m [] h all = tt
put-Queued x v m ((l, f) ∷ q) h all =
    (item f (omega (arith, h)) all.0, put-Queued x v m q (omega (arith, h)) all.1)
  where
    item : (f : Functor) → hit (fd_of (l, f)) x ≡ 0 → Fits m f → Fits (put x v m) f
    item (establishes c) e k = put-other x c.fd v m e ∙ k
    item (erases c) e k = put-other x c.fd v m e ∙ k
    item (destroys c) e k = put-other x c.fd v m e ∙ k
