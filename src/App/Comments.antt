-- ===== src/App/Comments.antt =====
-- The repository of comments: app/repository/CommentRepository.h and CommentRepository.cpp. Texts
-- are bytes. The array of slots is a function of the index, which the code keeps below 50. The
-- operations run as a whole where they take the lock of a slot; `PushComment` gets its number before
-- that, in `fetch_add`, and the theorems on `push_comment` are about posts with no other post between
-- the two (App.Comments.Examples shows what one that comes late does).
pub mod History
pub mod Views
pub mod Erasing
pub mod Restart
pub mod Database
mod Examples
use mini_reactor.Base.{
  ℕ, zero, suc, ◌+◌, ◌-◌, ◌%◌, ◌^◌, ltb, ◌==◌, if◌then◌else◌, Bool, true, false, List, [], ◌∷◌,
  ◌++◌, Option, none, some,
}

abbrev pub Text : Type 0
Text = List ℕ

abbrev pub max_mem_comments : ℕ
max_mem_comments = 50

pub record MemoryComment : Type 0 where
  pub nickname : Text
  pub content : Text
  pub ip : Text
  pub sequence : ℕ

pub data DbAction : Type 0 where
  insert update : DbAction

pub record DbTask : Type 0 where
  pub action : DbAction
  pub sequence : ℕ
  pub nickname : Text
  pub content : Text
  pub ip : Text

pub record CommentSnapshot : Type 0 where
  pub sequence : ℕ
  pub nickname : Text
  pub content : Text
  pub ip : Text

-- `g_comment_sequence`, `g_comment_ring_buffer` and `m_db_queue`.
pub record Repository : Type 0 where
  pub sequence : ℕ
  pub ring : ℕ → MemoryComment
  pub db_queue : List DbTask

abbrev pub empty_slot : MemoryComment
empty_slot = record { nickname = []; content = []; ip = []; sequence = 0 }

abbrev pub empty : Repository
empty = record { sequence = 0; ring = λ i. empty_slot; db_queue = [] }

-- A `uint64_t` sum.
abbrev pub next : ℕ → ℕ
next seq = (seq + 1) % 2 ^ 64

abbrev pub put : ℕ → MemoryComment → (ℕ → MemoryComment) → ℕ → MemoryComment
put index slot ring j = if j == index then slot else ring j

unfoldable pub enqueue_db_task : DbTask → Repository → Repository
enqueue_db_task task repo = record repo { db_queue = repo.db_queue ++ (task ∷ []) }

-- `fetch_add` on the counter, which takes no lock.
unfoldable pub fetch_add : Repository → ℕ × Repository
fetch_add repo = (repo.sequence, record repo { sequence = next repo.sequence })

-- What follows under the lock of the slot.
unfoldable pub write_slot : ℕ → Text → Text → Text → Repository → Repository
unfolding enqueue_db_task
write_slot seq nickname content ip repo =
    let slot : MemoryComment = record {
      nickname = nickname;
      content = content;
      ip = ip;
      sequence = next seq;
    } in
    enqueue_db_task
      (record { action = insert; sequence = seq; nickname = nickname; content = content; ip = ip })
      (record repo { ring = put (seq % max_mem_comments) slot repo.ring })

-- The two parts with nothing of another thread between them.
unfoldable pub push_comment : Text → Text → Text → Repository → Repository
unfolding fetch_add write_slot
push_comment nickname content ip repo =
    let (seq, taken) = fetch_add repo in write_slot seq nickname content ip taken

-- The loop of the two readers: `n` sequence numbers from `i` on, each looked up in its slot.
unfoldable pub collect {ℓ} :
    {A : Type ℓ} → (ℕ → MemoryComment → A) → (ℕ → MemoryComment) → ℕ → ℕ → List A
collect view ring i zero = []
collect view ring i (suc n) =
    let slot = ring (i % max_mem_comments) in
    let rest = collect view ring (i + 1) n in
    if slot.sequence == next i then view i slot ∷ rest else rest

-- Where the readers start.
unfoldable pub start_seq : ℕ → ℕ
start_seq current = if ltb max_mem_comments current then current - max_mem_comments else 0

unfoldable pub get_latest_comments : Repository → List (Text × Text)
unfolding collect start_seq
get_latest_comments repo =
    let start = start_seq repo.sequence in
    collect (λ i slot. (slot.nickname, slot.content)) repo.ring start (repo.sequence - start)

unfoldable pub get_telemetry_snapshot : Repository → ℕ × List CommentSnapshot
unfolding collect start_seq
get_telemetry_snapshot repo =
    let start = start_seq repo.sequence in
    (
      repo.sequence,
      collect
          (λ i slot. record {
            sequence = i;
            nickname = slot.nickname;
            content = slot.content;
            ip = slot.ip;
          })
          repo.ring start (repo.sequence - start),
    )

-- "[AI 已拦截]" in UTF-8.
abbrev pub intercepted_nick : Text
intercepted_nick = 91 ∷ 65 ∷ 73 ∷ 32 ∷ 229 ∷ 183 ∷ 178 ∷ 230 ∷ 139 ∷ 166 ∷ 230 ∷ 136 ∷ 170 ∷ 93 ∷ []

-- The notice that takes the place of an erased comment, in UTF-8.
abbrev pub intercepted_content : Text
intercepted_content =
    226 ∷ 154 ∷ 160 ∷ 239 ∷ 184 ∷ 143 ∷ 32 ∷ 230 ∷ 173 ∷ 164 ∷ 230 ∷ 157 ∷ 161 ∷ 231 ∷ 149 ∷ 153
    ∷ 232 ∷ 168 ∷ 128 ∷ 229 ∷ 155 ∷ 160 ∷ 232 ∷ 191 ∷ 157 ∷ 232 ∷ 167 ∷ 132 ∷ 229 ∷ 183 ∷ 178 ∷ 232
    ∷ 162 ∷ 171 ∷ 32 ∷ 65 ∷ 73 ∷ 32 ∷ 65 ∷ 103 ∷ 101 ∷ 110 ∷ 116 ∷ 32 ∷ 230 ∷ 137 ∷ 167 ∷ 232 ∷ 161
    ∷ 140 ∷ 230 ∷ 151 ∷ 160 ∷ 233 ∷ 148 ∷ 129 ∷ 229 ∷ 142 ∷ 159 ∷ 229 ∷ 173 ∷ 144 ∷ 230 ∷ 138 ∷ 185
    ∷ 233 ∷ 153 ∷ 164 ∷ 227 ∷ 128 ∷ 130 ∷ []

-- What `EraseComment` returns: the author's name and address if it is true.
unfoldable pub erase_comment : ℕ → Repository → Option (Text × Text) × Repository
unfolding enqueue_db_task
erase_comment seq repo =
    let index = seq % max_mem_comments in
    let slot = repo.ring index in
    let hidden : MemoryComment = record slot {
      nickname = intercepted_nick;
      content = intercepted_content;
    } in
    if slot.sequence == next seq
    then (
      some (slot.nickname, slot.ip),
      enqueue_db_task
          (record {
            action = update;
            sequence = seq;
            nickname = intercepted_nick;
            content = intercepted_content;
            ip = [];
          })
          (record repo { ring = put index hidden repo.ring }),
    )
    else (none, repo)

-- A row of the query for the newest 50, which come newest first; a null address is "".
abbrev pub restore : List MemoryComment → (ℕ → MemoryComment) → ℕ → MemoryComment
restore [] ring = ring
restore (row ∷ rows) ring =
    put (row.sequence % max_mem_comments) (record row { sequence = next row.sequence })
      (restore rows ring)

abbrev pub max_seq : List MemoryComment → ℕ
max_seq [] = 0
max_seq (row ∷ rows) = let m = max_seq rows in if ltb m row.sequence then row.sequence else m

-- The part of `Initialize` that fills the memory from the rows, each with its own sequence number.
unfoldable pub initialize : List MemoryComment → Repository → Repository
initialize [] repo = repo
initialize (row ∷ rows) repo = record repo {
  sequence = next (max_seq (row ∷ rows));
  ring = restore (row ∷ rows) repo.ring;
}
