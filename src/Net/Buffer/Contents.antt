-- ===== src/Net/Buffer/Contents.antt =====
-- The buffer refines a queue of bytes: each operation keeps the cursors in order, and acts on the
-- readable bytes as the queue's operation would.
use mini_reactor.Base.{
  ℕ, ◌+◌, ◌≤◌, ◌≡◌, refl, ap, ◌∙◌, sym, List, [], ◌++◌, length, drop, arith, ltb, Bool-cases, inl,
  inr, length-slice, slice_empty, length-write_at, length-resize, slice-write_at, slice-resize,
  drop-slice, drop_all, slice_all,
}
use mini_reactor.Net.Buffer.{
  Buffer, init, readable_bytes, writable_bytes, contents, retrieve_all, retrieve, make_space,
  ensure_writable_bytes, append,
}

pub record IsValid (b : Buffer) : Type 0 where
  pub ordered : b.read_index ≤ b.write_index
  pub within : b.write_index ≤ length b.buffer

pub length-contents : (b : Buffer) → IsValid b → length (contents b) ≡ readable_bytes b
length-contents b v = length-slice b.read_index b.write_index b.buffer v.ordered v.within

pub init-IsValid : (n : ℕ) → IsValid (init n)
unfolding init
init-IsValid n = record { ordered = omega arith; within = omega arith }

pub retrieve_all-IsValid : {b : Buffer} → IsValid b → IsValid (retrieve_all b)
unfolding retrieve_all
retrieve_all-IsValid v = omega arith

pub contents-retrieve_all : (b : Buffer) → contents (retrieve_all b) ≡ []
unfolding retrieve_all
contents-retrieve_all b = slice_empty 0 b.buffer

pub retrieve-IsValid : {b : Buffer} (n : ℕ) → IsValid b → IsValid (retrieve n b)
unfolding retrieve
retrieve-IsValid n v = ground arith

-- Retrieving more than there is empties the buffer.
pub contents-retrieve :
    (b : Buffer) (n : ℕ) → IsValid b → contents (retrieve n b) ≡ drop n (contents b)
unfolding retrieve
contents-retrieve b n v = elim (Bool-cases (ltb n (readable_bytes b))) [
  | inl less ↦ rw less (
      sym (drop-slice b.read_index n (b.read_index + n) b.write_index b.buffer refl (ground arith)))
  | inr rest ↦
      rw rest (
        slice_empty 0 b.buffer
        ∙ sym (drop_all n (contents b) (ground (arith, length-contents b v))))
]

abbrev HasRoom : ℕ → Buffer → Buffer → Type 0
HasRoom n b b' = IsValid b' × (b'.write_index + n ≤ length b'.buffer) × (contents b' ≡ contents b)

make_space-HasRoom :
    (n : ℕ) (b : Buffer) → IsValid b → writable_bytes b ≤ n → HasRoom n b (make_space n b)
unfolding make_space
make_space-HasRoom n b v h = elim (Bool-cases (ltb (writable_bytes b + b.read_index) n)) [
  | inl grows ↦ rw grows (
    ground (arith, length-resize 0 (b.write_index + n) b.buffer),
    ground (arith, length-resize 0 (b.write_index + n) b.buffer),
    slice-resize 0 b.read_index b.write_index (b.write_index + n) b.buffer v.within (omega arith),
  )
  | inr fits ↦ rw fits (
    ground (arith, length-write_at b.buffer 0 (contents b)),
    ground (arith, length-write_at b.buffer 0 (contents b)),
    slice_all (readable_bytes b) b.buffer (contents b) (sym (length-contents b v)) (omega arith),
  )
]

ensure_writable_bytes-HasRoom :
    (n : ℕ) (b : Buffer) → IsValid b → HasRoom n b (ensure_writable_bytes n b)
unfolding ensure_writable_bytes
ensure_writable_bytes-HasRoom n b v = elim (Bool-cases (ltb (writable_bytes b) n)) [
  | inl short ↦ rw short (make_space-HasRoom n b v (ground arith))
  | inr fits ↦ rw fits (v, ground arith, refl)
]

pub append-IsValid : {b : Buffer} (bytes : List ℕ) → IsValid b → IsValid (append bytes b)
unfolding append
append-IsValid {b} bytes v =
    let b' = ensure_writable_bytes (length bytes) b in
    let (ready, room, _) = ensure_writable_bytes-HasRoom (length bytes) b v in
    omega (arith, ready, room, length-write_at b'.buffer b'.write_index bytes)

pub contents-append :
    (bytes : List ℕ) (b : Buffer) → IsValid b → contents (append bytes b) ≡ contents b ++ bytes
unfolding append
contents-append bytes b v =
    let b' = ensure_writable_bytes (length bytes) b in
    let (ready, room, same) = ensure_writable_bytes-HasRoom (length bytes) b v in
    slice-write_at b'.read_index b'.write_index _ b'.buffer bytes ready.ordered refl room
    ∙ ap (λ l. l ++ bytes) same

-- `Append` on a buffer whose cursors are in order keeps them so, and puts the bytes behind the
-- unread ones, whether there was room, or the unread bytes are moved to the front, or the vector
-- grows.
pub append_lem :
    (bytes : List ℕ) (b : Buffer)
    → IsValid b
    → IsValid (append bytes b) × (contents (append bytes b) ≡ contents b ++ bytes)
append_lem bytes b v = (append-IsValid bytes v, contents-append bytes b v)

-- `Retrieve(n)` on a buffer whose cursors are in order keeps them so, and takes the first `n`
-- unread bytes away, or all of them if there are fewer.
pub retrieve_lem :
    (n : ℕ) (b : Buffer)
    → IsValid b
    → IsValid (retrieve n b) × (contents (retrieve n b) ≡ drop n (contents b))
retrieve_lem n b v = (retrieve-IsValid n v, contents-retrieve b n v)
