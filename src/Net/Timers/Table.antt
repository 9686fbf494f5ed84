-- ===== src/Net/Timers/Table.antt =====
-- The table of timers: its order, the key of an id, insertion and removal.
use mini_reactor.Base.{
  ℕ, ◌≤◌, ◌<◌, ◌≡◌, refl, ◌==◌, if◌then◌else◌, [], ◌∷◌, Option, none, some, arith, All,
}
use mini_reactor.Net.Timers.{Timer, Table, emplace, erase}

-- The key under which a timer stands.
unfoldable pub key_of : ℕ → Table → Option ℕ
key_of id [] = none
key_of id ((w, t) ∷ ts) = if id == t.id then some w else key_of id ts

abbrev pub From : ℕ → Table → Type 0
From w = All λ e. w ≤ e.0

abbrev pub IsSorted : Table → Type 0
IsSorted [] = Unit
IsSorted ((w, t) ∷ ts) = From w ts × IsSorted ts

-- No id stands in the table twice.
abbrev pub IsDistinct : Table → Type 0
IsDistinct [] = Unit
IsDistinct ((w, t) ∷ ts) = (key_of t.id ts ≡ none) × IsDistinct ts

abbrev pub Below : ℕ → Table → Type 0
Below n = All λ e. e.1.id < n

pub key_of-emplace :
    (j w : ℕ) (t : Timer) (ts : Table)
    → key_of t.id ts ≡ none
    → key_of j (emplace w t ts) ≡ (if j == t.id then some w else key_of j ts)
unfolding key_of emplace
key_of-emplace j w t [] h = refl
key_of-emplace j w t ((v, u) ∷ ts) h = ground (arith, key_of-emplace j w t ts)

pub emplace-From : (v w : ℕ) (t : Timer) (ts : Table) → v ≤ w → From v ts → From v (emplace w t ts)
unfolding emplace
emplace-From v w t [] h k = (h, tt)
emplace-From v w t ((u, x) ∷ ts) h k = ground (arith, emplace-From v w t ts h k.1)

From-mono : (v w : ℕ) (ts : Table) → v ≤ w → From w ts → From v ts
From-mono v w [] h k = tt
From-mono v w ((u, x) ∷ ts) h k = (omega arith, From-mono v w ts h k.1)

pub emplace-IsSorted : (w : ℕ) (t : Timer) (ts : Table) → IsSorted ts → IsSorted (emplace w t ts)
unfolding emplace
emplace-IsSorted w t [] h = (tt, tt)
emplace-IsSorted w t ((u, x) ∷ ts) h =
    ground (arith, emplace-IsSorted w t ts h.1, emplace-From u w t ts, From-mono w u ts, h.0)

pub emplace-IsDistinct :
    (w : ℕ) (t : Timer) (ts : Table)
    → key_of t.id ts ≡ none
    → IsDistinct ts
    → IsDistinct (emplace w t ts)
unfolding emplace key_of
emplace-IsDistinct w t [] h k = (refl, tt)
emplace-IsDistinct w t ((u, x) ∷ ts) h k =
    ground (arith, emplace-IsDistinct w t ts, key_of-emplace x.id w t ts)

pub emplace-Below :
    (n w : ℕ) (t : Timer) (ts : Table) → t.id < n → Below n ts → Below n (emplace w t ts)
unfolding emplace
emplace-Below n w t [] h k = (h, tt)
emplace-Below n w t ((u, x) ∷ ts) h k = ground (arith, emplace-Below n w t ts h k.1)

pub Below-mono : (m n : ℕ) (ts : Table) → m ≤ n → Below m ts → Below n ts
Below-mono m n [] h k = tt
Below-mono m n ((u, x) ∷ ts) h k = (omega arith, Below-mono m n ts h k.1)

pub key_of-Below : (n j : ℕ) (ts : Table) → Below n ts → n ≤ j → key_of j ts ≡ none
unfolding key_of
key_of-Below n j [] h k = refl
key_of-Below n j ((u, x) ∷ ts) h k = ground (arith, key_of-Below n j ts h.1 k)

pub key_of-erase :
    (j id w : ℕ) (ts : Table)
    → IsDistinct ts
    → key_of id ts ≡ some w
    → key_of j (erase w id ts) ≡ (if j == id then none else key_of j ts)
unfolding key_of erase
key_of-erase j id w [] d h = cc
key_of-erase j id w ((v, u) ∷ ts) d h = ground (arith, key_of-erase j id w ts d.1)

pub erase-From : (v w id : ℕ) (ts : Table) → From v ts → From v (erase w id ts)
unfolding erase
erase-From v w id [] k = tt
erase-From v w id ((u, x) ∷ ts) k = ground (arith, erase-From v w id ts k.1)

pub erase-IsSorted : (w id : ℕ) (ts : Table) → IsSorted ts → IsSorted (erase w id ts)
unfolding erase
erase-IsSorted w id [] h = tt
erase-IsSorted w id ((u, x) ∷ ts) h =
    ground (arith, erase-IsSorted w id ts h.1, erase-From u w id ts h.0)

key_of-erase-none : (j id w : ℕ) (ts : Table) → key_of j ts ≡ none → key_of j (erase w id ts) ≡ none
unfolding key_of erase
key_of-erase-none j id w [] h = refl
key_of-erase-none j id w ((v, u) ∷ ts) h = ground (arith, key_of-erase-none j id w ts)

pub erase-IsDistinct : (w id : ℕ) (ts : Table) → IsDistinct ts → IsDistinct (erase w id ts)
unfolding erase
erase-IsDistinct w id [] h = tt
erase-IsDistinct w id ((u, x) ∷ ts) h =
    ground (arith, erase-IsDistinct w id ts h.1, key_of-erase-none x.id id w ts h.0)

pub erase-Below : (n w id : ℕ) (ts : Table) → Below n ts → Below n (erase w id ts)
unfolding erase
erase-Below n w id [] h = tt
erase-Below n w id ((u, x) ∷ ts) h = ground (arith, erase-Below n w id ts h.1)
