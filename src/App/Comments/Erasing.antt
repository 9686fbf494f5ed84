-- ===== src/App/Comments/Erasing.antt =====
-- `EraseComment` against the history: a comment among the newest 50 is redacted in its place.
use mathlib.Core.Option
use mini_reactor.Base.{
  ℕ, zero, suc, ◌+◌, ◌-◌, ◌%◌, ◌^◌, ◌≤◌, ◌<◌, ◌≡◌, refl, sym, ap, ap₂, ◌∙◌, ltb, leb, ◌==◌,
  if◌then◌else◌, List, [], ◌∷◌, Option, none, some, arith, length, get_elem?, set, length-set,
  get_elem?-set_self, get_elem?-set_ne, Bool-cases, true, false, ltb→lt, Option-cases, inl, inr,
  Option-cases,
}
use mini_reactor.App.Comments.{
  Text, MemoryComment, DbTask, Repository, erase_comment, enqueue_db_task, next, put,
  max_mem_comments, intercepted_nick, intercepted_content,
}
use mini_reactor.App.Comments.History.{
  Comment, slot_of, Holds, put_same, put_other, get_elem?-bound,
}

-- The comment with a number, while it is among the newest 50.
abbrev pub recent : ℕ → List Comment → Option Comment
recent seq h = if leb (length h) (seq + max_mem_comments) then get_elem? h seq else none

abbrev pub author : Comment → Text × Text
author c = (c.nickname, c.ip)

abbrev pub hidden : Comment → Comment
hidden c = record c { nickname = intercepted_nick; content = intercepted_content }

abbrev pub redact_found : ℕ → Option Comment → List Comment → List Comment
redact_found seq none h = h
redact_found seq (some c) h = set h seq (hidden c)

-- The history after the comment was erased, if it is among the newest 50.
abbrev pub redact : ℕ → List Comment → List Comment
redact seq h = redact_found seq (recent seq h) h

get_elem?-some {ℓ} :
    {A : Type ℓ} (xs : List A) (i : ℕ) → i < length xs → (a : A) × (get_elem? xs i ≡ some a)
get_elem?-some [] i h = absurd (omega arith)
get_elem?-some (x ∷ xs) zero h = (x, refl)
get_elem?-some (x ∷ xs) (suc i) h = get_elem?-some xs i (omega arith)

-- The number of the comment in the slot that an overwritten comment had.
abbrev heir : ℕ → ℕ → ℕ
heir seq n = n - 1 - (n - 1 - seq) % max_mem_comments

overwritten :
    (seq : ℕ) (h : List Comment)
    → recent seq h ≡ none
    → seq < length h
    → seq + max_mem_comments < length h
overwritten seq h e past = elim (Bool-cases (leb (length h) (seq + max_mem_comments))) [
  | inr old ↦ ground arith
  | inl near ↦ let absent = rw near at e in let (c, at) = get_elem?-some h seq past in absurd (cc)
]

pub recent_lem :
    (seq : ℕ) (c : Comment) (h : List Comment)
    → recent seq h ≡ some c
    → (get_elem? h seq ≡ some c) × (length h ≤ seq + max_mem_comments)
recent_lem seq c h e = elim (Bool-cases (leb (length h) (seq + max_mem_comments))) [
  | inl near ↦ (rw near at e, ground arith)
  | inr old ↦ let absent = rw old at e in absurd (cc)
]

-- The slot of a comment that is not among the newest 50 has another number.
not_recent :
    (seq : ℕ) (h : List Comment) (repo : Repository)
    → seq + 1 < 2 ^ 64
    → Holds h repo
    → recent seq h ≡ none
    → ((repo.ring (seq % max_mem_comments)).sequence == next seq) ≡ false
not_recent seq h repo small v e = elim (Bool-cases (ltb seq (length h))) [
  | inr future ↦ ground (arith, v.below (seq % max_mem_comments))
  | inl past ↦
      let old = overwritten seq h e (ltb→lt seq (length h) past) in
      let i = heir seq (length h) in
      let (c, at) = get_elem?-some h i (omega arith) in
      let same : seq % max_mem_comments ≡ i % max_mem_comments = omega arith in
      let number =
        ap (λ j. (repo.ring j).sequence) same
        ∙ ap (λ s. s.sequence) (v.recent i c at (omega arith)) in
      ground (arith, number)
]

module _ (seq : ℕ) (c : Comment) (h : List Comment) (repo : Repository) (small : seq + 1 < 2 ^ 64)
    (v : Holds h repo) (at : get_elem? h seq ≡ some c)
    (near : length h ≤ seq + max_mem_comments) where
  abbrev overwrite : MemoryComment
  overwrite = record (repo.ring (seq % max_mem_comments)) {
    nickname = intercepted_nick;
    content = intercepted_content;
  }

  at_hidden :
      (i : ℕ) (d : Comment)
      → get_elem? (set h seq (hidden c)) i ≡ some d
      → i ≡ seq
      → put (seq % max_mem_comments) overwrite repo.ring (i % max_mem_comments) ≡ slot_of i d
  at_hidden i d e here =
      let there =
        sym (get_elem?-set_self h seq (hidden c) (get_elem?-bound h seq c at))
        ∙ sym (ap (get_elem? (set h seq (hidden c))) here)
        ∙ e in
      let same : hidden c ≡ d = cc in
      put_same (seq % max_mem_comments) (i % max_mem_comments) overwrite repo.ring
        (ap (λ k. k % max_mem_comments) here)
      ∙ ap
          (λ s. record {
            nickname = intercepted_nick;
            content = intercepted_content;
            ip = s.ip;
            sequence = s.sequence;
          })
          (v.recent seq c at near)
      ∙ ap₂ slot_of (sym here) same

  hidden-Holds :
      (tasks : List DbTask)
      → Holds (set h seq (hidden c)) (record repo {
        ring = put (seq % max_mem_comments) overwrite repo.ring;
        db_queue = tasks;
      })
  hidden-Holds tasks =
      let longer = length-set h seq (hidden c) in
      record {
        count = omega (arith, longer, v.count);
        fits = omega (arith, longer, v.fits);
        recent = λ i d e near'. elim (Bool-cases (i == seq)) [
          | inl same ↦ at_hidden i d e (ground arith)
          | inr other ↦
              put_other (seq % max_mem_comments) (i % max_mem_comments) overwrite repo.ring (
                ground (
                  arith,
                  longer,
                  get_elem?-bound (set h seq (hidden c)) i d e,
                  get_elem?-bound h seq c at,
                ))
              ∙ v.recent i d (sym (get_elem?-set_ne h (hidden c) (ground arith)) ∙ e)
                  (omega (arith, longer))
        ];
        below = λ j. ground (arith, longer, v.below j, v.below (seq % max_mem_comments));
      }

  erase_found :
      ((erase_comment seq repo).0 ≡ some (author c))
      × Holds (set h seq (hidden c)) (erase_comment seq repo).1
  unfolding erase_comment enqueue_db_task
  erase_found =
      let slot = v.recent seq c at near in
      let same : ((repo.ring (seq % max_mem_comments)).sequence == next seq) ≡ true =
        ground (arith, ap (λ s. s.sequence) slot) in
      rw same (ap (λ s. some (s.nickname, s.ip)) slot, hidden-Holds _)

-- While the memory holds a history, `EraseComment` on a number below 2^64 - 1 says whether the
-- comment is among the newest 50, and who wrote it; if so the memory then holds the history with
-- that comment redacted, and if not the same history.
pub erase_comment-Holds :
    (seq : ℕ) (h : List Comment) (repo : Repository)
    → seq + 1 < 2 ^ 64
    → Holds h repo
    → ((erase_comment seq repo).0 ≡ Option.map author (recent seq h))
      × Holds (redact seq h) (erase_comment seq repo).1
unfolding erase_comment
erase_comment-Holds seq h repo small v = elim (Option-cases (recent seq h)) [
  | inl absent ↦ rw (absent, not_recent seq h repo small v absent) (refl, v)
  | inr (c, found) ↦
      let (at, near) = recent_lem seq c h found in
      let (result, holds) = erase_found seq c h repo small v at near in rw found (result, holds)
]
