-- ===== src/App/Comments/Database/Writing.antt =====
-- Write-behind: the table on disk, with the tasks that wait, is the history.
use mathlib.Core.Option
use mini_reactor.Base.{
  ℕ, zero, suc, ◌+◌, ◌%◌, ◌^◌, ◌<◌, ◌==◌, if◌then◌else◌, ◌≡◌, ◌⊎◌, refl, sym, ap, ap₂, ◌∙◌, subst,
  inl, inr, true, false, List, [], ◌∷◌, ◌++◌, map, Option, none, some, Bool-cases, length,
  get_elem?, set, get_elem?-set_self, get_elem?-set_ne, arith,
}
use mini_reactor.App.Comments.{
  Text, Repository, DbTask, insert, update, push_comment, erase_comment, enqueue_db_task,
  intercepted_nick, intercepted_content, next, max_mem_comments,
}
use mini_reactor.App.Comments.History.{Comment, Holds, get_elem?-bound}
use mini_reactor.App.Comments.Erasing.{
  recent, redact, redact_found, hidden, author, recent_lem, erase_comment-Holds,
}
use mini_reactor.App.Comments.Database.{c_str}
use mini_reactor.App.Comments.Database.Laws.{Table, renamed}
use mini_reactor.App.Comments.Database.Batches.{apply_task, apply_all}

-- A comment as the table can hold it: each text up to its first null byte.
abbrev pub cut : Comment → Comment
cut c = record { nickname = c_str c.nickname; content = c_str c.content; ip = c_str c.ip }

-- The table with the tasks that wait has the history, row by row.
abbrev pub Backs : List Comment → List DbTask → Table → Type 0
Backs h queue t = (seq : ℕ) → apply_all queue t seq ≡ get_elem? (map cut h) seq

apply_all-append :
    (queue : List DbTask) (task : DbTask) (t : Table)
    → apply_all (queue ++ (task ∷ [])) t ≡ apply_task task (apply_all queue t)
apply_all-append [] task t = refl
apply_all-append (first ∷ queue) task t = apply_all-append queue task (apply_task first t)

pub length-map {ℓ κ} :
    {A : Type ℓ} {B : Type κ} (f : A → B) (xs : List A) → length (map f xs) ≡ length xs
length-map f [] = refl
length-map f (x ∷ xs) = ap suc (length-map f xs)

get_elem?-map {ℓ κ} :
    {A : Type ℓ} {B : Type κ} (f : A → B) (xs : List A) (i : ℕ)
    → get_elem? (map f xs) i ≡ Option.map f (get_elem? xs i)
get_elem?-map f [] i = refl
get_elem?-map f (x ∷ xs) zero = refl
get_elem?-map f (x ∷ xs) (suc i) = get_elem?-map f xs i

get_elem?-append {ℓ} :
    {A : Type ℓ} (xs : List A) (x : A) (i : ℕ)
    → get_elem? (xs ++ (x ∷ [])) i ≡ (if i == length xs then some x else get_elem? xs i)
get_elem?-append [] x zero = refl
get_elem?-append [] x (suc i) = ground arith
get_elem?-append (y ∷ xs) x zero = ground arith
get_elem?-append (y ∷ xs) x (suc i) = ground (arith, get_elem?-append xs x i)

map-append_one {ℓ κ} :
    {A : Type ℓ} {B : Type κ} (f : A → B) (xs : List A) (x : A)
    → map f (xs ++ (x ∷ [])) ≡ map f xs ++ (f x ∷ [])
map-append_one f [] x = refl
map-append_one f (y ∷ xs) x = ap (λ l. f y ∷ l) (map-append_one f xs x)

pub push_comment-Backs :
    (c : Comment) (h : List Comment) (repo : Repository) (t : Table)
    → Holds h repo
    → Backs h repo.db_queue t
    → Backs (h ++ (c ∷ [])) (push_comment c.nickname c.content c.ip repo).db_queue t
unfolding push_comment enqueue_db_task
push_comment-Backs c h repo t holds backs seq =
    ap (λ u. u seq) (apply_all-append repo.db_queue task t)
    ∙ ap₂ (λ n o. if seq == n then some (cut c) else o) (holds.count ∙ sym (length-map cut h))
        (backs seq)
    ∙ sym (get_elem?-append (map cut h) (cut c) seq)
    ∙ ap (λ l. get_elem? l seq) (sym (map-append_one cut h c))
  where
    task : DbTask
    task = record {
      action = insert;
      sequence = repo.sequence;
      nickname = c.nickname;
      content = c.content;
      ip = c.ip;
    }

-- The task that an erased comment leaves.
abbrev redaction : ℕ → DbTask
redaction seq = record {
  action = update;
  sequence = seq;
  nickname = intercepted_nick;
  content = intercepted_content;
  ip = [];
}

abbrev queue_after : ℕ → Option (Text × Text) → List DbTask → List DbTask
queue_after seq none queue = queue
queue_after seq (some _) queue = queue ++ (redaction seq ∷ [])

erase_comment-queue :
    (seq : ℕ) (repo : Repository)
    → (erase_comment seq repo).1.db_queue ≡ queue_after seq (erase_comment seq repo).0 repo.db_queue
unfolding erase_comment enqueue_db_task
erase_comment-queue seq repo =
    elim (Bool-cases ((repo.ring (seq % max_mem_comments)).sequence == next seq)) [
      | inl same ↦ rw same refl
      | inr other ↦ rw other refl
    ]

redact-Backs :
    (seq : ℕ) (c : Comment) (h : List Comment) (queue : List DbTask) (t : Table)
    → get_elem? h seq ≡ some c
    → Backs h queue t
    → Backs (set h seq (hidden c)) (queue ++ (redaction seq ∷ [])) t
redact-Backs seq c h queue t at backs j =
    ap (λ u. u j) (apply_all-append queue (redaction seq) t)
    ∙ ap (λ o. if j == seq then renamed nick text o else o) (backs j ∙ get_elem?-map cut h j)
    ∙ by_number (Bool-cases (j == seq))
    ∙ sym (get_elem?-map cut (set h seq (hidden c)) j)
  where
    nick : Text
    nick = c_str intercepted_nick

    text : Text
    text = c_str intercepted_content

    by_number :
        ((j == seq) ≡ true) ⊎ ((j == seq) ≡ false)
        → (if j == seq
            then renamed nick text (Option.map cut (get_elem? h j))
            else Option.map cut (get_elem? h j))
          ≡ Option.map cut (get_elem? (set h seq (hidden c)) j)
    by_number (inl same) =
        let e : j ≡ seq = ground arith in
        rw same (
          ap (λ o. renamed nick text (Option.map cut o)) (ap (get_elem? h) e ∙ at)
          ∙ ap (Option.map cut) (
              sym (
                ap (get_elem? (set h seq (hidden c))) e
                ∙ get_elem?-set_self h seq (hidden c) (get_elem?-bound h seq c at))))
    by_number (inr other) =
        rw other (
          ap (Option.map cut)
            (sym (get_elem?-set_ne h {i = seq} {j = j} (hidden c) (ground arith))))

pub erase_comment-Backs :
    (seq : ℕ) (h : List Comment) (repo : Repository) (t : Table)
    → seq + 1 < 2 ^ 64
    → Holds h repo
    → Backs h repo.db_queue t
    → Backs (redact seq h) (erase_comment seq repo).1.db_queue t
erase_comment-Backs seq h repo t small holds backs =
    subst (λ q. Backs (redact seq h) q t)
      (sym (
        erase_comment-queue seq repo
        ∙ ap (λ o. queue_after seq o repo.db_queue) (erase_comment-Holds seq h repo small holds).0))
      (by_recent (recent seq h) refl)
  where
    by_recent :
        (o : Option Comment)
        → recent seq h ≡ o
        → Backs (redact_found seq o h) (queue_after seq (Option.map author o) repo.db_queue) t
    by_recent none e = backs
    by_recent (some c) e = redact-Backs seq c h repo.db_queue t (recent_lem seq c h e).0 backs
