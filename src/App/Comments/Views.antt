-- ===== src/App/Comments/Views.antt =====
-- The two readers against the history: they list its newest 50 comments, oldest first.
use mini_reactor.Base.{
  ℕ, zero, suc, ◌+◌, ◌-◌, ◌%◌, ◌≤◌, ◌≡◌, refl, ap, ap₂, ◌∙◌, ◌==◌, List, [], ◌∷◌, map, some, arith,
  length, get_elem?, drop, true, length-drop,
}
use mini_reactor.App.Comments.{
  Text, MemoryComment, CommentSnapshot, Repository, collect, start_seq, get_latest_comments,
  get_telemetry_snapshot, next, max_mem_comments,
}
use mini_reactor.App.Comments.History.{Comment, slot_of, Holds, get_elem?-bound}

-- The newest 50, or all if there are no more.
abbrev pub newest : List Comment → List Comment
newest h = drop (length h - max_mem_comments) h

abbrev pub line : Comment → Text × Text
line c = (c.nickname, c.content)

-- Snapshots of comments that are numbered from `i` on.
abbrev pub numbered : ℕ → List Comment → List CommentSnapshot
numbered i [] = []
numbered i (c ∷ cs) =
    (record { sequence = i; nickname = c.nickname; content = c.content; ip = c.ip })
    ∷ numbered (i + 1) cs

abbrev views {ℓ} : {A : Type ℓ} → (ℕ → MemoryComment → A) → ℕ → List Comment → List A
views view i [] = []
views view i (c ∷ cs) = view i (slot_of i c) ∷ views view (i + 1) cs

get_elem?-drop {ℓ} :
    {A : Type ℓ} (i : ℕ) (xs : List A) (x : A) (rest : List A)
    → drop i xs ≡ x ∷ rest
    → (get_elem? xs i ≡ some x) × (drop (suc i) xs ≡ rest)
get_elem?-drop zero [] x rest e = absurd (cc)
get_elem?-drop (suc i) [] x rest e = absurd (cc)
get_elem?-drop zero (y ∷ ys) x rest e = (cc, cc)
get_elem?-drop (suc i) (y ∷ ys) x rest e = get_elem?-drop i ys x rest e

collect_lem {ℓ} :
    {A : Type ℓ} (view : ℕ → MemoryComment → A) (h : List Comment) (repo : Repository) (i : ℕ)
    (cs : List Comment)
    → Holds h repo
    → drop i h ≡ cs
    → length h ≤ i + max_mem_comments
    → collect view repo.ring i (length cs) ≡ views view i cs
unfolding collect
collect_lem view h repo i [] v e near = refl
collect_lem view h repo i (c ∷ cs) v e near =
    let (at, rest) = get_elem?-drop i h c cs e in
    let slot = v.recent i c at near in
    let same : ((repo.ring (i % max_mem_comments)).sequence == next i) ≡ true =
      ground (arith, ap (λ s. s.sequence) slot, get_elem?-bound h i c at) in
    let tail =
      collect_lem view h repo (i + 1) cs v
        (ap (λ k. drop k h) {x = i + 1} {y = suc i} (omega arith) ∙ rest) (omega arith) in
    rw same (ap₂ (λ s l. view i s ∷ l) slot tail)

-- Both readers collect the newest 50.
collect-newest {ℓ} :
    {A : Type ℓ} (view : ℕ → MemoryComment → A) (h : List Comment) (repo : Repository)
    → Holds h repo
    → collect view repo.ring (start_seq repo.sequence) (repo.sequence - start_seq repo.sequence)
      ≡ views view (length h - max_mem_comments) (newest h)
unfolding start_seq
collect-newest view h repo v =
    let start : start_seq repo.sequence ≡ length h - max_mem_comments = ground (arith, v.count) in
    let count : repo.sequence - start_seq repo.sequence ≡ length (newest h) =
      omega (arith, v.count, start, length-drop (length h - max_mem_comments) h) in
    ap₂ (collect view repo.ring) start count
    ∙ collect_lem view h repo (length h - max_mem_comments) (newest h) v refl (omega arith)

abbrev line_view : ℕ → MemoryComment → Text × Text
line_view i slot = (slot.nickname, slot.content)

abbrev snapshot_view : ℕ → MemoryComment → CommentSnapshot
snapshot_view i slot = record {
  sequence = i;
  nickname = slot.nickname;
  content = slot.content;
  ip = slot.ip;
}

views-line : (i : ℕ) (cs : List Comment) → views line_view i cs ≡ map line cs
views-line i [] = refl
views-line i (c ∷ cs) = ap (λ l. line c ∷ l) (views-line (i + 1) cs)

views-numbered : (i : ℕ) (cs : List Comment) → views snapshot_view i cs ≡ numbered i cs
views-numbered i [] = refl
views-numbered i (c ∷ cs) = ap₂ (λ x l. x ∷ l) refl (views-numbered (i + 1) cs)

-- While the memory holds a history, `GetLatestComments` lists its newest 50 comments, oldest
-- first, and `GetTelemetrySnapshot` gives the length of the history and the same comments, each
-- under its number in the history.
pub readers-newest :
    (h : List Comment) (repo : Repository)
    → Holds h repo
    → (get_latest_comments repo ≡ map line (newest h))
      × (get_telemetry_snapshot repo
          ≡ (length h, numbered (length h - max_mem_comments) (newest h)))
unfolding get_latest_comments get_telemetry_snapshot
readers-newest h repo v = (
  collect-newest line_view h repo v ∙ views-line (length h - max_mem_comments) (newest h),
  ap₂ (λ n l. (n, l)) v.count
      (collect-newest snapshot_view h repo v
        ∙ views-numbered (length h - max_mem_comments) (newest h)),
)
