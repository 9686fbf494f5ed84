-- ===== src/App/Comments/Restart.antt =====
-- `Initialize` on the rows that a history left in the database.
use mini_reactor.Base.{
  ℕ, zero, suc, ◌+◌, ◌%◌, ◌^◌, ◌≤◌, ◌<◌, ◌≡◌, sym, ap, ◌∙◌, List, [], ◌∷◌, Option, none, some,
  arith, length, get_elem?, Bool-cases, inl, inr, ◌==◌,
}
use mini_reactor.App.Comments.{
  MemoryComment, initialize, restore, max_seq, next, max_mem_comments, empty,
}
use mini_reactor.App.Comments.History.{
  Comment, slot_of, Holds, empty-Holds, put_same, put_other, get_elem?-bound,
}

abbrev pub or_empty : Option Comment → Comment
or_empty none = record { nickname = []; content = []; ip = [] }
or_empty (some c) = c

abbrev pub row_at : ℕ → Option Comment → MemoryComment
row_at seq o = record {
  nickname = (or_empty o).nickname;
  content = (or_empty o).content;
  ip = (or_empty o).ip;
  sequence = seq;
}

-- The `k` rows below the number `n`, the newest first.
abbrev pub rows_below : List Comment → ℕ → ℕ → List MemoryComment
rows_below h zero n = []
rows_below h (suc k) zero = []
rows_below h (suc k) (suc n) = row_at n (get_elem? h n) ∷ rows_below h k n

-- What the query for the newest 50 rows gives if the table holds the history.
abbrev pub stored : List Comment → List MemoryComment
stored h = rows_below h max_mem_comments (length h)

restored :
    (h : List Comment) (k n i : ℕ) (c : Comment)
    → k ≤ max_mem_comments
    → n < 2 ^ 64
    → get_elem? h i ≡ some c
    → i < n
    → n ≤ i + k
    → restore (rows_below h k n) empty.ring (i % max_mem_comments) ≡ slot_of i c
restored h zero n i c few small at low near = absurd (omega arith)
restored h (suc k) zero i c few small at low near = absurd (omega arith)
restored h (suc k) (suc n) i c few small at low near = elim (Bool-cases (i == n)) [
  | inl top ↦
      let e : i ≡ n = ground arith in
      put_same (n % max_mem_comments) (i % max_mem_comments)
        (record (row_at n (get_elem? h n)) { sequence = next n })
        (restore (rows_below h k n) empty.ring) (ap (λ m. m % max_mem_comments) e)
      ∙ ap (λ m. record (row_at n (get_elem? h n)) { sequence = m }) {x = next n} {y = i + 1}
          (omega arith)
      ∙ ap (λ o. slot_of i (or_empty o)) (sym (ap (get_elem? h) e) ∙ at)
  | inr older ↦
      put_other (n % max_mem_comments) (i % max_mem_comments)
        (record (row_at n (get_elem? h n)) { sequence = next n })
        (restore (rows_below h k n) empty.ring) (ground arith)
      ∙ restored h k n i c (omega arith) (omega arith) at (ground arith) (omega arith)
]

restored-below :
    (h : List Comment) (k n j : ℕ)
    → n < 2 ^ 64
    → (restore (rows_below h k n) empty.ring j).sequence ≤ n
restored-below h zero n j small = omega arith
restored-below h (suc k) zero j small = omega arith
restored-below h (suc k) (suc n) j small = ground (arith, restored-below h k n j (omega arith))

max_seq_le : (h : List Comment) (k n : ℕ) → max_seq (rows_below h k n) ≤ n
max_seq_le h zero n = omega arith
max_seq_le h (suc k) zero = omega arith
max_seq_le h (suc k) (suc n) = ground (arith, max_seq_le h k n)

max_seq-rows : (h : List Comment) (k n : ℕ) → max_seq (rows_below h (suc k) (suc n)) ≡ n
max_seq-rows h k n = ground (arith, max_seq_le h k n)

-- From the rows of a table that holds a history, `Initialize` fills the memory with its newest 50,
-- and the numbering goes on where it stopped.
pub initialize-Holds :
    (h : List Comment) → length h < 2 ^ 64 → Holds h (initialize (stored h) empty)
unfolding initialize
initialize-Holds [] small = empty-Holds
initialize-Holds (c ∷ h) small = record {
  count = omega (arith, max_seq-rows (c ∷ h) 49 (length h));
  fits = small;
  recent = λ i d at near.
      restored (c ∷ h) max_mem_comments (length (c ∷ h)) i d (omega arith) small at
        (get_elem?-bound (c ∷ h) i d at) near;
  below = λ j. restored-below (c ∷ h) max_mem_comments (length (c ∷ h)) j small;
}
