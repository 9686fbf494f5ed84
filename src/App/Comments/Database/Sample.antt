-- ===== src/App/Comments/Database/Sample.antt =====
-- Two small databases that keep the promises of SQLite: one in memory, of which no call fails, and
-- one whose transaction hangs.
use mini_reactor.Base.{
  ℕ, zero, suc, ◌+◌, ◌≤◌, ◌==◌, if◌then◌else◌, ◌≡◌, refl, sym, ap, ap₂, ◌∙◌, inl, inr, Bool, true,
  false, List, [], ◌∷◌, none, some, Option-cases, length, get_elem?, arith,
}
use mini_reactor.App.Comments.{Text, MemoryComment, max_mem_comments}
use mini_reactor.App.Comments.History.{Comment, get_elem?-bound}
use mini_reactor.App.Comments.Restart.{row_at, rows_below}
use mini_reactor.App.Comments.Database.{Sqlite}
use mini_reactor.App.Comments.Database.Laws.{
  Table, put_row, update_row, renamed, IsSqlite, IsReliable,
}

-- A table with a bound behind which there is nothing.
pub record Rows : Type 0 where
  pub table : Table
  pub bound : ℕ
  pub beyond : (seq : ℕ) → bound ≤ seq → table seq ≡ none

pub record Memory : Type 0 where
  pub disk : Rows
  pub view : Rows
  pub in_transaction : Bool

pub put_row-beyond :
    (seq : ℕ) (c : Comment) (r : Rows) (j : ℕ)
    → r.bound + seq + 1 ≤ j
    → put_row seq c r.table j ≡ none
put_row-beyond seq c r j h = ground (arith, r.beyond j)

pub update_row-beyond :
    (n t : Text) (seq : ℕ) (r : Rows) (j : ℕ) → r.bound ≤ j → update_row n t seq r.table j ≡ none
update_row-beyond n t seq r j h =
    ap (λ o. if j == seq then renamed n t o else o) (r.beyond j h) ∙ same (j == seq)
  where
    same : (b : Bool) → (if b then renamed n t none else none) ≡ none
    same true = refl
    same false = refl

abbrev pub with_row : ℕ → Comment → Rows → Rows
with_row seq c r = record {
  table = put_row seq c r.table;
  bound = r.bound + seq + 1;
  beyond = put_row-beyond seq c r;
}

abbrev pub with_update : Text → Text → ℕ → Rows → Rows
with_update n t seq r = record {
  table = update_row n t seq r.table;
  bound = r.bound;
  beyond = update_row-beyond n t seq r;
}

-- The first number without a row.
abbrev pub first_gap : ℕ → ℕ → Table → ℕ
first_gap zero i t = i
first_gap (suc fuel) i t =
    let further = first_gap fuel (i + 1) t in elim (t i) [ none ↦ i | some _ ↦ further ]

abbrev pub newest_of : Table → ℕ → ℕ → List MemoryComment
newest_of t zero n = []
newest_of t (suc k) zero = []
newest_of t (suc k) (suc n) = row_at n (t n) ∷ newest_of t k n

-- A write outside a transaction goes to the disk at once.
abbrev pub write_through : (Rows → Rows) → Bool → Memory → Bool × Memory
write_through f true d = (true, record d { view = f d.view })
write_through f false d = (true, record d { view = f d.view; disk = f d.disk })

abbrev pub start_tx : Bool → Memory → Bool × Memory
start_tx true d = (false, d)
start_tx false d = (true, record d { view = d.disk; in_transaction = true })

abbrev pub finish_tx : Bool → Memory → Bool × Memory
finish_tx true d = (true, record d { disk = d.view; in_transaction = false })
finish_tx false d = (false, d)

abbrev pub undo : Bool → Memory → Bool × Memory
undo true d = (true, record d { view = d.disk; in_transaction = false })
undo false d = (false, d)

abbrev pub memory : Sqlite
memory = record {
  Db = Memory;
  begin_transaction = λ d. start_tx d.in_transaction d;
  commit = λ d. finish_tx d.in_transaction d;
  rollback = λ d. undo d.in_transaction d;
  insert_or_replace = λ seq n c i d.
      write_through (with_row seq (record { nickname = n; content = c; ip = i })) d.in_transaction
        d;
  update_where = λ n c seq d. write_through (with_update n c seq) d.in_transaction d;
  select_newest =
      λ d. newest_of d.disk.table max_mem_comments (first_gap d.disk.bound 0 d.disk.table);
}

get_elem?-past {ℓ} : {A : Type ℓ} (xs : List A) (i : ℕ) → length xs ≤ i → get_elem? xs i ≡ none
get_elem?-past [] i h = refl
get_elem?-past (x ∷ xs) zero h = absurd (omega arith)
get_elem?-past (x ∷ xs) (suc i) h = get_elem?-past xs i (omega arith)

get_elem?-none {ℓ} : {A : Type ℓ} (xs : List A) (i : ℕ) → get_elem? xs i ≡ none → length xs ≤ i
get_elem?-none [] i h = omega arith
get_elem?-none (x ∷ xs) zero h = absurd (cc)
get_elem?-none (x ∷ xs) (suc i) h = omega (arith, get_elem?-none xs i h)

module _ (t : Table) (h : List Comment) (same : (seq : ℕ) → t seq ≡ get_elem? h seq) where
  pub first_gap_lem :
      (fuel i : ℕ) → i ≤ length h → length h ≤ i + fuel → first_gap fuel i t ≡ length h
  first_gap_lem zero i low high = omega arith
  first_gap_lem (suc fuel) i low high = elim (Option-cases (t i)) [
    | inl gap ↦
        let past = get_elem?-none h i (sym (same i) ∙ gap) in
        let e : i ≡ length h = omega arith in rw (gap, first_gap) e
    | inr (c, row) ↦ rw (row, first_gap) (first_gap_lem fuel (i + 1) (inside c row) (omega arith))
  ]
    where
      inside : (c : Comment) → t i ≡ some c → i + 1 ≤ length h
      inside c row = omega (arith, get_elem?-bound h i c (sym (same i) ∙ row))

  pub newest_of_lem : (k n : ℕ) → newest_of t k n ≡ rows_below h k n
  newest_of_lem zero n = refl
  newest_of_lem (suc k) zero = refl
  newest_of_lem (suc k) (suc n) = ap₂ (λ o rest. row_at n o ∷ rest) (same n) (newest_of_lem k n)

  pub length-le-bound : (bound : ℕ) → t bound ≡ none → length h ≤ 0 + bound
  length-le-bound bound e = omega (arith, get_elem?-none h bound (sym (same bound) ∙ e))

pub zero_le : {n : ℕ} → 0 ≤ n
zero_le = omega arith

pub le_self : {n : ℕ} → n ≤ n
le_self = omega arith

pub true_is_false {ℓ} : {A : Type ℓ} → true ≡ false → A
true_is_false e = absurd (cc)

pub false_is_true {ℓ} : {A : Type ℓ} → false ≡ true → A
false_is_true e = absurd (cc)

pub start_tx_laws :
    (b : Bool) (d : Memory)
    → ((start_tx b d).1.disk.table ≡ d.disk.table)
      × (((start_tx b d).0 ≡ true)
          → ((start_tx b d).1.view.table ≡ d.disk.table) × ((start_tx b d).1.in_transaction ≡ true))
start_tx_laws true d = (refl, λ h. false_is_true h)
start_tx_laws false d = (refl, λ h. (refl, refl))

pub write_through_laws :
    (f : Rows → Rows) (b : Bool) (d : Memory)
    → ((write_through f b d).0 ≡ true)
      × ((write_through f b d).1.view.table ≡ (f d.view).table)
      × ((write_through f b d).1.in_transaction ≡ d.in_transaction)
      × ((b ≡ true) → (write_through f b d).1.disk.table ≡ d.disk.table)
write_through_laws f true d = (refl, refl, refl, λ h. refl)
write_through_laws f false d = (refl, refl, refl, λ h. false_is_true h)

pub finish_tx_laws :
    (b : Bool) (d : Memory)
    → (((finish_tx b d).0 ≡ true)
        → ((finish_tx b d).1.disk.table ≡ d.view.table)
          × ((finish_tx b d).1.in_transaction ≡ false))
      × (((finish_tx b d).0 ≡ false) → (finish_tx b d).1.disk.table ≡ d.disk.table)
      × ((b ≡ true) → (finish_tx b d).0 ≡ true)
finish_tx_laws true d = (λ h. (refl, refl), λ h. true_is_false h, λ h. refl)
finish_tx_laws false d = (λ h. false_is_true h, λ h. refl, λ h. false_is_true h)

pub undo_keeps : (b : Bool) (d : Memory) → (undo b d).1.disk.table ≡ d.disk.table
undo_keeps true d = refl
undo_keeps false d = refl

pub start_tx_nested :
    (b : Bool) (d : Memory)
    → b ≡ true
    → d.in_transaction ≡ true
    → ((start_tx b d).0 ≡ false) × ((start_tx b d).1.in_transaction ≡ true)
start_tx_nested true d h k = (refl, k)
start_tx_nested false d h k = false_is_true h

pub start_tx_begins : (b : Bool) (d : Memory) → b ≡ false → (start_tx b d).0 ≡ true
start_tx_begins true d h = true_is_false h
start_tx_begins false d h = refl

abbrev pub memory-IsSqlite : IsSqlite memory
memory-IsSqlite = record {
  seen = λ d. d.view.table;
  on_disk = λ d. d.disk.table;
  is_open = λ d. d.in_transaction;
  begin_keeps = λ d. (start_tx_laws d.in_transaction d).0;
  begin_starts = λ d. (start_tx_laws d.in_transaction d).1;
  begin_nested = λ d h. start_tx_nested d.in_transaction d h h;
  insert_keeps = λ seq n c i d h. (write_through_laws _ d.in_transaction d).3 h;
  insert_done = λ seq n c i d h.
      ((write_through_laws _ d.in_transaction d).2, (write_through_laws _ d.in_transaction d).1);
  update_keeps = λ n c seq d h. (write_through_laws _ d.in_transaction d).3 h;
  update_done = λ n c seq d h.
      ((write_through_laws _ d.in_transaction d).2, (write_through_laws _ d.in_transaction d).1);
  commit_done = λ d. (finish_tx_laws d.in_transaction d).0;
  commit_fails = λ d. (finish_tx_laws d.in_transaction d).1;
  rollback_keeps = λ d. undo_keeps d.in_transaction d;
  select_rows = λ d h short same.
      ap (newest_of d.disk.table max_mem_comments) (
        first_gap_lem d.disk.table h same d.disk.bound 0 zero_le
          (length-le-bound d.disk.table h same d.disk.bound (d.disk.beyond d.disk.bound le_self)))
      ∙ newest_of_lem d.disk.table h same max_mem_comments (length h);
}

pub memory-IsReliable : IsReliable memory memory-IsSqlite
memory-IsReliable = record {
  begins = λ d h. start_tx_begins d.in_transaction d h;
  inserts = λ seq n c i d. (write_through_laws _ d.in_transaction d).0;
  updates = λ n c seq d. (write_through_laws _ d.in_transaction d).0;
  commits = λ d h. (finish_tx_laws d.in_transaction d).2 h;
}

abbrev pub hanging : Sqlite
hanging = record {
  Db = Unit {0};
  begin_transaction = λ d. (false, tt);
  commit = λ d. (false, tt);
  rollback = λ d. (false, tt);
  insert_or_replace = λ seq n c i d. (false, tt);
  update_where = λ n c seq d. (false, tt);
  select_newest = λ d. [];
}
