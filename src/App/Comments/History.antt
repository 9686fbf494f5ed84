-- ===== src/App/Comments/History.antt =====
-- What the repository promises: the whole history of comments, oldest first, of which the memory
-- holds the newest 50.
use mini_reactor.Base.{
  ℕ, zero, suc, ◌+◌, ◌%◌, ◌^◌, ◌≤◌, ◌<◌, ◌≡◌, ◌≢◌, refl, sym, ap, ◌∙◌, ltb, List, [], ◌∷◌, ◌++◌,
  some, arith, length, get_elem?, length-append, Bool-cases, inl, inr, ap₂,
}
use mini_reactor.App.Comments.{
  Text, MemoryComment, Repository, push_comment, enqueue_db_task, next, put, max_mem_comments,
  empty,
}

pub record Comment : Type 0 where
  pub nickname : Text
  pub content : Text
  pub ip : Text

-- The slot of the comment with the number `seq`.
abbrev pub slot_of : ℕ → Comment → MemoryComment
slot_of seq c = record { nickname = c.nickname; content = c.content; ip = c.ip; sequence = seq + 1 }

-- The memory holds the newest 50 of the history, each in its slot.
pub record Holds (h : List Comment) (repo : Repository) : Type 0 where
  pub count : repo.sequence ≡ length h
  pub fits : length h < 2 ^ 64
  pub recent :
      (i : ℕ) (c : Comment)
      → get_elem? h i ≡ some c
      → length h ≤ i + max_mem_comments
      → repo.ring (i % max_mem_comments) ≡ slot_of i c
  pub below : (j : ℕ) → (repo.ring j).sequence ≤ length h

pub empty-Holds : Holds [] empty
empty-Holds = record {
  count = refl;
  fits = omega arith;
  recent = λ i c e. absurd (ground (arith, e));
  below = λ j. omega arith;
}

pub get_elem?-bound {ℓ} :
    {A : Type ℓ} (xs : List A) (i : ℕ) (a : A) → get_elem? xs i ≡ some a → i < length xs
get_elem?-bound [] i a e = absurd (ground (arith, e))
get_elem?-bound (x ∷ xs) zero a e = omega arith
get_elem?-bound (x ∷ xs) (suc i) a e = omega (arith, get_elem?-bound xs i a e)

pub get_elem?-append_left {ℓ} :
    {A : Type ℓ} (xs ys : List A) (i : ℕ) → i < length xs → get_elem? (xs ++ ys) i ≡ get_elem? xs i
get_elem?-append_left [] ys i h = absurd (omega arith)
get_elem?-append_left (x ∷ xs) ys zero h = refl
get_elem?-append_left (x ∷ xs) ys (suc i) h = get_elem?-append_left xs ys i (omega arith)

pub get_elem?-append_last {ℓ} :
    {A : Type ℓ} (xs : List A) (a : A) → get_elem? (xs ++ (a ∷ [])) (length xs) ≡ some a
get_elem?-append_last [] a = refl
get_elem?-append_last (x ∷ xs) a = get_elem?-append_last xs a

pub put_same :
    (index j : ℕ) (slot : MemoryComment) (ring : ℕ → MemoryComment)
    → j ≡ index
    → put index slot ring j ≡ slot
put_same index j slot ring h = ground arith

pub put_other :
    (index j : ℕ) (slot : MemoryComment) (ring : ℕ → MemoryComment)
    → j ≢ index
    → put index slot ring j ≡ ring j
put_other index j slot ring h = ground arith

-- While the memory holds a history, `PushComment` appends to it, as long as the 64-bit counter
-- does not wrap.
pub push_comment-Holds :
    (nickname content ip : Text) (h : List Comment) (repo : Repository)
    → length h + 1 < 2 ^ 64
    → Holds h repo
    → Holds
        (h ++ (record { nickname = nickname; content = content; ip = ip } ∷ []))
        (push_comment nickname content ip repo)
unfolding push_comment enqueue_db_task
push_comment-Holds nickname content ip h repo room v =
    let longer = length-append h (c ∷ []) in
    record {
      count = omega (arith, v.count, longer);
      fits = omega (arith, longer);
      recent = λ i d e near. elim (Bool-cases (ltb i (length h))) [
        | inl old ↦
            put_other (repo.sequence % max_mem_comments) (i % max_mem_comments) _ repo.ring
              (ground (arith, longer, v.count))
            ∙ v.recent i d (sym (get_elem?-append_left h (c ∷ []) i (ground arith)) ∙ e)
                (omega (arith, longer))
        | inr new ↦ newest i d e (ground (arith, longer, get_elem?-bound (h ++ (c ∷ [])) i d e))
      ];
      below = λ j. ground (arith, longer, v.below j, v.count);
    }
  where
    c : Comment
    c = record { nickname = nickname; content = content; ip = ip }

    next_eq : (i : ℕ) → i ≡ length h → next repo.sequence ≡ i + 1
    next_eq i at = omega (arith, v.count, at)

    newest :
        (i : ℕ) (d : Comment)
        → get_elem? (h ++ (c ∷ [])) i ≡ some d
        → i ≡ length h
        → (push_comment nickname content ip repo).ring (i % max_mem_comments) ≡ slot_of i d
    newest i d e at =
        let here = sym (ap (get_elem? (h ++ (c ∷ []))) at ∙ get_elem?-append_last h c) ∙ e in
        let same : c ≡ d = cc in
        put_same (repo.sequence % max_mem_comments) (i % max_mem_comments) _ repo.ring
          (ap (λ k. k % max_mem_comments) (at ∙ sym v.count))
        ∙ ap₂
            (λ k a. record { nickname = a.nickname; content = a.content; ip = a.ip; sequence = k })
            (next_eq i at) same
