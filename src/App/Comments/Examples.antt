-- ===== src/App/Comments/Examples.antt =====
-- A repository with two comments.
use mini_reactor.Base.{ℕ, zero, suc, none, ◌^◌, ◌-◌, ◌≡◌, refl, [], ◌∷◌, some, arith}
use mini_reactor.Base.Bytes.{codes}
use mini_reactor.App.Comments.{
  Repository, fetch_add, write_slot, push_comment, erase_comment, empty, get_latest_comments,
  get_telemetry_snapshot,
}
use mini_reactor.App.Comments.History.{Comment, Holds, empty-Holds, push_comment-Holds}
use mini_reactor.App.Comments.Views.{numbered, readers-newest}

abbrev hello : Comment
hello = record { nickname = codes "ann"; content = codes "hello"; ip = codes "10.0.0.1" }

abbrev spam : Comment
spam = record { nickname = codes "bob"; content = codes "spam"; ip = codes "10.0.0.2" }

abbrev one : Repository
one = push_comment hello.nickname hello.content hello.ip empty

abbrev two : Repository
two = push_comment spam.nickname spam.content spam.ip one

one-Holds : Holds (hello ∷ []) one
one-Holds =
    push_comment-Holds hello.nickname hello.content hello.ip [] empty (omega arith) empty-Holds

two-Holds : Holds (hello ∷ spam ∷ []) two
two-Holds =
    push_comment-Holds spam.nickname spam.content spam.ip (hello ∷ []) one (omega arith) one-Holds

readers-newest_example :
    (get_latest_comments two ≡ (hello.nickname, hello.content) ∷ (spam.nickname, spam.content) ∷ [])
    × (get_telemetry_snapshot two ≡ (2, numbered 0 (hello ∷ spam ∷ [])))
readers-newest_example = readers-newest (hello ∷ spam ∷ []) two two-Holds

-- `seq + 1` wraps to the number of an unused slot: a comment that never was is erased.
erases_nothing : (erase_comment (2 ^ 64 - 1) two).0 ≡ some ([], [])
unfolding erase_comment push_comment
erases_nothing = refl

abbrev push_many : ℕ → Repository → Repository
push_many zero repo = repo
push_many (suc n) repo = push_many n (push_comment hello.nickname hello.content hello.ip repo)

-- A post that has its number, 0, and gets the slot after 50 others.
abbrev late : Repository
late =
    let (seq, taken) = fetch_add empty in
    write_slot seq spam.nickname spam.content spam.ip (push_many 50 taken)

-- The newest comment, number 50, has lost its place to it: it can be erased no more.
late_hides : (erase_comment 50 late).0 ≡ none
unfolding fetch_add write_slot push_comment erase_comment
late_hides = refl

-- In time it could.
in_time : (erase_comment 50 (push_many 51 empty)).0 ≡ some (hello.nickname, hello.ip)
unfolding push_comment erase_comment
in_time = refl
