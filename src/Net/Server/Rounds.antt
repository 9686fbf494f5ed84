-- ===== src/Net/Server/Rounds.antt =====
-- The round robin of the pool of loops.
use mini_reactor.Base.{
  ℕ, zero, suc, ◌+◌, ◌%◌, ◌<◌, ◌≤◌, ltb, ◌==◌, if◌then◌else◌, ◌≡◌, ◌⊎◌, refl, sym, ap, ap₂, ◌∙◌,
  subst, inl, inr, Option, some, List, [], ◌∷◌, length, get_elem?, All, if_cases, arith,
}
use native.Mathlib.Nat.{mod_self, mod-eq_of_lt}
use mini_reactor.Net.Server.{
  EventLoop, main_loop, sub_loop, EventLoopThreadPool, from, start_pool, get_next_loop,
}

length-from : (i n : ℕ) → length (from i n) ≡ n
length-from i zero = refl
length-from i (suc n) = ap (λ k. suc k) (length-from (i + 1) n)

get_elem?-from : (i n k : ℕ) → k < n → get_elem? (from i n) k ≡ some (sub_loop (i + k))
get_elem?-from i zero k h = absurd (omega arith)
get_elem?-from i (suc n) zero h = ap (λ m. some (sub_loop m)) (omega arith)
get_elem?-from i (suc n) (suc k) h =
    get_elem?-from (i + 1) n k (omega arith) ∙ ap (λ m. some (sub_loop m)) (omega arith)

-- Every thread has its loop, and the next one is among them.
pub record IsServing (p : EventLoopThreadPool) : Type 0 where
  pub filled : p.loops ≡ from 0 p.thread_count
  pub within : (p.thread_count ≡ 0) ⊎ (p.next < p.thread_count)

-- The place behind the last is the first.
around : (k n : ℕ) → k < n → ((k + 1) % n ≡ k + 1) × (k + 1 < n) ⊎ ((k + 1) % n ≡ 0) × (k + 1 ≡ n)
around k n h = elim (compared (k + 1) n (omega arith)) [
  | inl less ↦ inl (mod-eq_of_lt less, less)
  | inr last ↦ inr (subst (λ m. (k + 1) % m ≡ 0) last (mod_self (k + 1)), last)
]
  where
    compared : (a b : ℕ) → a ≤ b → (a < b) ⊎ (a ≡ b)
    compared a b h = ground arith

pub start_pool-IsServing : (n : ℕ) → IsServing (start_pool n)
start_pool-IsServing zero = record { filled = refl; within = inl refl }
start_pool-IsServing (suc n) = record { filled = refl; within = inr (omega arith) }

-- What the next call gives.
abbrev Gives : EventLoopThreadPool → Option EventLoop × EventLoopThreadPool → Type 0
Gives p (r, q) =
    IsServing q
    × (((p.thread_count ≡ 0) × (r ≡ some main_loop) × (q ≡ p))
        ⊎ ((r ≡ some (sub_loop p.next)) × (q ≡ record p { next = (p.next + 1) % p.thread_count })))

get_next_loop-Gives : (p : EventLoopThreadPool) → IsServing p → Gives p (get_next_loop p)
unfolding get_next_loop
get_next_loop-Gives p s =
    let count = ap length s.filled ∙ length-from 0 p.thread_count in
    if_cases (Gives p) (length p.loops == 0) (some main_loop, p)
      (get_elem? p.loops p.next, record p { next = (p.next + 1) % p.thread_count })
      (λ e. (s, inl (ground (arith, count), refl, refl)))
      (λ e. elim s.within [
        | inl no_thread ↦ absurd (ground (arith, count))
        | inr h ↦ (
          record {
            filled = s.filled;
            within = elim (around p.next p.thread_count h) [
              | inl (m, less) ↦ inr (omega (arith, m))
              | inr (m, last) ↦ inr (omega (arith, m))
            ];
          },
          inr (
            ap (λ l. get_elem? l p.next) s.filled
                ∙ get_elem?-from 0 p.thread_count p.next h
                ∙ ap (λ m. some (sub_loop m)) (omega arith),
            refl,
          ),
        )
      ])

-- The loops that a number of connections are given to.
abbrev pub next_loops : ℕ → EventLoopThreadPool → List (Option EventLoop)
next_loops zero p = []
next_loops (suc n) p = let (l, q) = get_next_loop p in l ∷ next_loops n q

abbrev goes_to : ℕ → Option EventLoop → ℕ
goes_to i (some (sub_loop j)) = if j == i then 1 else 0
goes_to i _ = 0

-- How many of them a thread has.
abbrev load : ℕ → List (Option EventLoop) → ℕ
load i [] = 0
load i (l ∷ ls) = goes_to i l + load i ls

-- Whether the loop is that of one of so many threads.
abbrev IsThread : ℕ → Option EventLoop → Type 0
IsThread n (some (sub_loop i)) = i < n
IsThread n _ = ⊥

-- The threads before the next one have one connection more than the others.
abbrev Level : (ℕ → ℕ) → ℕ → ℕ → Type 0
Level loads next n = (q : ℕ) × ((i : ℕ) → i < n → loads i ≡ q + (if ltb i next then 1 else 0))

Level-next :
    (loads : ℕ → ℕ) (k n : ℕ)
    → k < n
    → Level loads k n
    → Level (λ i. loads i + goes_to i (some (sub_loop k))) ((k + 1) % n) n
Level-next loads k n h (q, level) = elim (around k n h) [
  | inl (m, less) ↦ (q, λ i below. let e = level i below in rw m (ground (arith, e)))
  | inr (m, last) ↦ (q + 1, λ i below. let e = level i below in rw m (ground (arith, e, last)))
]

Level-fair :
    (loads : ℕ → ℕ) (next n i j : ℕ) → Level loads next n → i < n → j < n → loads i ≤ loads j + 1
Level-fair loads next n i j (q, level) h k =
    let a = level i h in let b = level j k in ground (arith, a, b)

next_thread :
    (p : EventLoopThreadPool)
    → IsServing p
    → 0 < p.thread_count
    → get_next_loop p ≡ (some (sub_loop p.next), record p { next = (p.next + 1) % p.thread_count })
next_thread p s h = elim (get_next_loop-Gives p s).1 [
  | inl (no_thread, l, q) ↦ absurd (omega (arith, no_thread))
  | inr (l, q) ↦ ap₂ (λ a b. (a, b)) l q
]

pub after-IsServing : (p : EventLoopThreadPool) → IsServing p → IsServing (get_next_loop p).1
after-IsServing p s = (get_next_loop-Gives p s).0

next_within : (p : EventLoopThreadPool) → IsServing p → 0 < p.thread_count → p.next < p.thread_count
next_within p s h = elim s.within [ inl no_thread ↦ absurd (omega (arith, no_thread)) | inr k ↦ k ]

pub record IsFair (n : ℕ) (ls : List (Option EventLoop)) : Type 0 where
  pub threads : All (IsThread n) ls
  pub fair : (i j : ℕ) → i < n → j < n → load i ls ≤ load j ls + 1

-- With the loads that came before.
record IsLevel (loads : ℕ → ℕ) (n : ℕ) (ls : List (Option EventLoop)) : Type 0 where
  threads : All (IsThread n) ls
  last : ℕ
  level : Level (λ i. loads i + load i ls) last n

next_loops-IsLevel :
    (n : ℕ) (p : EventLoopThreadPool) (loads : ℕ → ℕ)
    → IsServing p
    → 0 < p.thread_count
    → Level loads p.next p.thread_count
    → IsLevel loads p.thread_count (next_loops n p)
next_loops-IsLevel zero p loads s h (q, level) = record {
  threads = tt;
  last = p.next;
  level = (q, λ i below. let e = level i below in omega (arith, e));
}
next_loops-IsLevel (suc n) p loads s h level =
    let q : EventLoopThreadPool = record p { next = (p.next + 1) % p.thread_count } in
    let e = next_thread p s h in
    let serving : IsServing q = subst (λ r. IsServing r.1) e (after-IsServing p s) in
    let rest =
      next_loops-IsLevel n q (λ i. loads i + goes_to i (some (sub_loop p.next))) serving h
        (Level-next loads p.next p.thread_count (next_within p s h) level) in
    subst (λ r. IsLevel loads p.thread_count (r.0 ∷ next_loops n r.1)) (sym e)
      (record {
        threads = (next_within p s h, rest.threads);
        last = rest.last;
        level = (rest.level.0, λ i below. let k = rest.level.1 i below in omega (arith, k));
      })

-- With one thread at least, whatever number of connections is given out from the start: each goes to
-- the loop of a thread, `loops_` is never read out of bounds, and no thread has two connections more
-- than another.
pub next_loops-IsFair :
    (n thread_count : ℕ)
    → 0 < thread_count
    → IsFair thread_count (next_loops n (start_pool thread_count))
next_loops-IsFair n thread_count h =
    let r =
      next_loops-IsLevel n (start_pool thread_count) (λ i. 0) (start_pool-IsServing thread_count) h
        (0, λ i below. ground arith) in
    record {
      threads = r.threads;
      fair = λ i j a b.
          let e =
            Level-fair (λ i. 0 + load i (next_loops n (start_pool thread_count))) r.last
              thread_count i j r.level a b in
          omega (arith, e);
    }

-- The call gives a loop.
pub get_next_loop-gives :
    (p : EventLoopThreadPool) → IsServing p → (l : EventLoop) × ((get_next_loop p).0 ≡ some l)
get_next_loop-gives p s = elim (get_next_loop-Gives p s).1 [
  | inl (no_thread, l, q) ↦ (main_loop, l)
  | inr (l, q) ↦ (sub_loop p.next, l)
]
