-- ===== src/App/Dispatcher/Moderation.antt =====
-- A batch of erased comments against the history and the blacklist.
use mathlib.Core.Option
use mini_reactor.Base.{
  ℕ, ◌+◌, ◌^◌, ◌<◌, ltb, ◌≡◌, ◌≢◌, ◌⊎◌, refl, sym, ap, ◌∙◌, subst, inl, inr, Bool, true, List, [],
  ◌∷◌, ◌++◌, Option, none, some, All, Bool-cases, Option-cases, length, length-set,
  get_elem?-set_ne, arith,
}
use mini_reactor.Base.Bytes.{bytes_eq, eq_of_bytes_eq}
use mini_reactor.App.Comments.{Repository, erase_comment}
use mini_reactor.App.Comments.History.{Comment, Holds}
use mini_reactor.App.Comments.Erasing.{recent, redact, author, hidden, erase_comment-Holds}
use mini_reactor.App.Blacklist.{member, check_comment}
use mini_reactor.App.Blacklist.Batch.{member-append, member-last, add_batch-present}
use mini_reactor.App.Dispatcher.{Text, Server, blocked}
use mini_reactor.App.Dispatcher.Control.{
  Erased, is_banned_nick, only_if, note_author, erase_all, nothing_erased, erase_batch,
}

-- The history after each of the comments was erased, in this order.
abbrev pub redact_all : List ℕ → List Comment → List Comment
redact_all [] h = h
redact_all (seq ∷ seqs) h = redact_all seqs (redact seq h)

-- A number that a client can name and that does not wrap.
abbrev pub IsSmall : ℕ → Type 0
IsSmall seq = seq + 1 < 2 ^ 64

note_author-comments :
    (r : Option (Text × Text) × Repository) (e : Erased) → (note_author r e).comments ≡ r.1
note_author-comments (none, repo) e = refl
note_author-comments (some (nick, ip), repo) e = refl

note_author-grows :
    (r : Option (Text × Text) × Repository) (e : Erased) (s : Text)
    → ((member s e.banned_nicks ≡ true) → member s (note_author r e).banned_nicks ≡ true)
      × ((member s e.banned_ips ≡ true) → member s (note_author r e).banned_ips ≡ true)
note_author-grows (none, repo) e s = (λ h. h, λ h. h)
note_author-grows (some (nick, ip), repo) e s = (
  member-append s e.banned_nicks (only_if (is_banned_nick nick) nick),
  member-append s e.banned_ips (only_if (ltb 0 (length ip)) ip),
)

erase_all-grows :
    (seqs : List ℕ) (e : Erased) (s : Text)
    → ((member s e.banned_nicks ≡ true) → member s (erase_all seqs e).banned_nicks ≡ true)
      × ((member s e.banned_ips ≡ true) → member s (erase_all seqs e).banned_ips ≡ true)
unfolding erase_all
erase_all-grows [] e s = (λ h. h, λ h. h)
erase_all-grows (seq ∷ seqs) e s =
    let r = erase_comment seq e.comments in
    let now = note_author-grows r e s in
    let later = erase_all-grows seqs (note_author r e) s in
    (λ h. later.0 (now.0 h), λ h. later.1 (now.1 h))

note_author-bans :
    (r : Option (Text × Text) × Repository) (e : Erased) (nick ip : Text)
    → r.0 ≡ some (nick, ip)
    → ((is_banned_nick nick ≡ true) → member nick (note_author r e).banned_nicks ≡ true)
      × ((ltb 0 (length ip) ≡ true) → member ip (note_author r e).banned_ips ≡ true)
note_author-bans (none, repo) e nick ip h = absurd (ground (arith, h))
note_author-bans (some (nick', ip'), repo) e nick ip h =
    let same : nick' ≡ nick = cc in
    let same' : ip' ≡ ip = cc in
    (
      λ b.
          subst (λ n. member nick (e.banned_nicks ++ only_if (is_banned_nick n) n) ≡ true)
            (sym same)
            (subst (λ t. member nick (e.banned_nicks ++ only_if t nick) ≡ true) (sym b)
              (member-last nick e.banned_nicks)),
      λ b.
          subst (λ n. member ip (e.banned_ips ++ only_if (ltb 0 (length n)) n) ≡ true) (sym same')
            (subst (λ t. member ip (e.banned_ips ++ only_if t ip) ≡ true) (sym b)
              (member-last ip e.banned_ips)),
    )

recent-redact : (j seq : ℕ) (h : List Comment) → j ≢ seq → recent seq (redact j h) ≡ recent seq h
recent-redact j seq h other = elim (Option-cases (recent j h)) [
  | inl absent ↦ rw absent refl
  | inr (c, found) ↦
      rw (found, length-set h j (hidden c), get_elem?-set_ne h {i = j} {j = seq} (hidden c) other)
        refl
]

erase_all-Holds :
    (seqs : List ℕ) (h : List Comment) (e : Erased)
    → All IsSmall seqs
    → Holds h e.comments
    → Holds (redact_all seqs h) (erase_all seqs e).comments
unfolding erase_all
erase_all-Holds [] h e small holds = holds
erase_all-Holds (seq ∷ seqs) h e small holds =
    let r = erase_comment seq e.comments in
    erase_all-Holds seqs (redact seq h) (note_author r e) small.1 (
      subst (Holds (redact seq h)) (sym (note_author-comments r e))
        (erase_comment-Holds seq h e.comments small.0 holds).1)

module _ (seq : ℕ) (after : List ℕ) (c : Comment) where
  erase_all-bans :
      (before : List ℕ) (h : List Comment) (e : Erased)
      → All IsSmall (before ++ (seq ∷ after))
      → All (λ j. j ≢ seq) before
      → recent seq h ≡ some c
      → Holds h e.comments
      → ((is_banned_nick c.nickname ≡ true)
          → member c.nickname (erase_all (before ++ (seq ∷ after)) e).banned_nicks ≡ true)
        × ((ltb 0 (length c.ip) ≡ true)
            → member c.ip (erase_all (before ++ (seq ∷ after)) e).banned_ips ≡ true)
  unfolding erase_all
  erase_all-bans [] h e small first found holds =
      let r = erase_comment seq e.comments in
      let named : r.0 ≡ some (c.nickname, c.ip) =
        (erase_comment-Holds seq h e.comments small.0 holds).0 ∙ ap (Option.map author) found in
      let now = note_author-bans r e c.nickname c.ip named in
      (
        λ b. (erase_all-grows after (note_author r e) c.nickname).0 (now.0 b),
        λ b. (erase_all-grows after (note_author r e) c.ip).1 (now.1 b),
      )
  erase_all-bans (j ∷ before) h e small first found holds =
      let r = erase_comment j e.comments in
      erase_all-bans before (redact j h) (note_author r e) small.1 first.1
        (recent-redact j seq h first.0 ∙ found)
        (subst (Holds (redact j h)) (sym (note_author-comments r e))
          (erase_comment-Holds j h e.comments small.0 holds).1)

All-member {ℓ} :
    (P : Text → Type ℓ) (s : Text) (ts : List Text) → All P ts → member s ts ≡ true → P s
unfolding member
All-member P s [] all h = absurd (cc)
All-member P s (t ∷ ts) all h = elim (Bool-cases (bytes_eq t s)) [
  | inl same ↦ subst P (eq_of_bytes_eq t s same) all.0
  | inr other ↦ All-member P s ts all.1 (rw other at h)
]

-- Whatever the comment says, it comes from the author of `c`.
abbrev pub IsFrom : Comment → Text → Text → Type 0
IsFrom c nick address =
    ((nick ≡ c.nickname) × (is_banned_nick c.nickname ≡ true))
    ⊎ ((address ≡ c.ip) × (ltb 0 (length c.ip) ≡ true))

present-member :
    (s : Text) (result : Bool)
    → (s ≡ []) ⊎ (result ≡ true)
    → ltb 0 (length s) ≡ true
    → result ≡ true
present-member [] result (inl e) h = absurd (cc)
present-member (x ∷ s) result (inl e) h = absurd (cc)
present-member s result (inr e) h = e

banned_nick_nonempty : (nick : Text) → is_banned_nick nick ≡ true → ltb 0 (length nick) ≡ true
banned_nick_nonempty nick h = elim (Bool-cases (ltb 0 (length nick))) [
  | inl filled ↦ filled
  | inr empty ↦ absurd (cc (rw empty at h))
]

check_comment-blocks_nick :
    (nick address content : Text) (s : Server)
    → member nick s.blacklist.rules.nicks ≡ true
    → blocked (check_comment nick address content s.blacklist.rules).0 ≡ true
unfolding check_comment
check_comment-blocks_nick nick address content s h = rw h refl

check_comment-blocks_ip :
    (nick address content : Text) (s : Server)
    → ltb 0 (length address) ≡ true
    → member address s.blacklist.rules.ips ≡ true
    → blocked (check_comment nick address content s.blacklist.rules).0 ≡ true
unfolding check_comment
check_comment-blocks_ip nick address content s filled h =
    elim (Bool-cases (member nick s.blacklist.rules.nicks)) [
      | inl named ↦ rw named refl
      | inr other ↦ rw (other, filled, h) refl
    ]

-- A batch of erased comments: the memory holds the redacted history, and a later comment from the
-- author of one that was among the newest 50 is blocked.
pub erase_batch-bans :
    (writable : Bool) (before after : List ℕ) (seq : ℕ) (h : List Comment) (c : Comment)
    (s : Server)
    → All IsSmall (before ++ (seq ∷ after))
    → All (λ j. j ≢ seq) before
    → recent seq h ≡ some c
    → Holds h s.comments
    → Holds
        (redact_all (before ++ (seq ∷ after)) h)
        (erase_batch writable (before ++ (seq ∷ after)) s).1.comments
      × ((nick address content : Text)
          → IsFrom c nick address
          → blocked
              (check_comment nick address content
                (erase_batch writable (before ++ (seq ∷ after)) s).1.blacklist.rules).0
            ≡ true)
unfolding erase_batch
erase_batch-bans writable before after seq h c s small first found holds =
    (erase_all-Holds seqs h (nothing_erased s.comments) small holds, blocks)
  where
    seqs : List ℕ
    seqs = before ++ (seq ∷ after)

    e : Erased
    e = erase_all seqs (nothing_erased s.comments)

    s' : Server
    s' = (erase_batch writable seqs s).1

    bans :
        ((is_banned_nick c.nickname ≡ true) → member c.nickname e.banned_nicks ≡ true)
        × ((ltb 0 (length c.ip) ≡ true) → member c.ip e.banned_ips ≡ true)
    bans = erase_all-bans seq after c before h (nothing_erased s.comments) small first found holds

    blocks :
        (nick address content : Text)
        → IsFrom c nick address
        → blocked (check_comment nick address content s'.blacklist.rules).0 ≡ true
    blocks nick address content (inl (same, b)) =
        check_comment-blocks_nick nick address content s' (
          subst (λ n. member n s'.blacklist.rules.nicks ≡ true) (sym same)
            (present-member c.nickname _
              (All-member _ c.nickname e.banned_nicks
                (add_batch-present writable e.banned_nicks e.banned_ips s.blacklist).0 (bans.0 b))
              (banned_nick_nonempty c.nickname b)))
    blocks nick address content (inr (same, b)) =
        check_comment-blocks_ip nick address content s'
          (subst (λ n. ltb 0 (length n) ≡ true) (sym same) b)
          (subst (λ n. member n s'.blacklist.rules.ips ≡ true) (sym same)
            (present-member c.ip _
              (All-member _ c.ip e.banned_ips
                (add_batch-present writable e.banned_nicks e.banned_ips s.blacklist).1 (bans.1 b))
              b))
