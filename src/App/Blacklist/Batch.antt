-- ===== src/App/Blacklist/Batch.antt =====
-- `AddBatch`: what it adds, and that the file follows.
use mini_reactor.Base.{
  ℕ, ◌+◌, ltb, if◌then◌else◌, ◌≡◌, ◌⊎◌, inl, inr, refl, sym, ap, ap₂, ◌∙◌, subst, Bool, true, false,
  List, [], ◌∷◌, ◌++◌, some, All, length, length-append, append-nil, append_assoc, Bool-cases,
  if_holds, lt→ltb, arith,
}
use mini_reactor.Base.Bytes.{bytes_eq, bytes_eq_refl}
use mini_reactor.App.Blacklist.{
  Text, member, insert, insert_all, add_batch, persist, persist_to_file, Manager, reload,
  fetch_latest_black_list,
}
use mini_reactor.App.Blacklist.File.{IsWritable, fetch-persist}

pub member-append : (s : Text) (ts us : List Text) → member s ts ≡ true → member s (ts ++ us) ≡ true
unfolding member
member-append s [] us h = absurd (cc)
member-append s (t ∷ ts) us h = elim (Bool-cases (bytes_eq t s)) [
  | inl same ↦ rw same refl
  | inr other ↦ rw other (member-append s ts us (rw other at h))
]

pub member-last : (s : Text) (ts : List Text) → member s (ts ++ (s ∷ [])) ≡ true
unfolding member
member-last s [] = rw (bytes_eq_refl s) refl
member-last s (t ∷ ts) = elim (Bool-cases (bytes_eq t s)) [
  | inl same ↦ rw same refl
  | inr other ↦ rw other (member-last s ts)
]

insert-member : (s : Text) (ts : List Text) → member s (insert s ts) ≡ true
unfolding insert
insert-member s ts = elim (Bool-cases (member s ts)) [
  | inl old ↦ rw (old, old) refl
  | inr new ↦ rw new (member-last s ts)
]

-- The set after some texts were inserted: how many are new, that none of the non-empty ones is
-- missing, and that the set grew at its end.
pub record Inserts (ss ts : List Text) (result : ℕ × List Text) : Type 0 where
  pub new : List Text
  pub grown : result.1 ≡ ts ++ new
  pub count : result.0 ≡ length new
  pub present : All (λ s. (s ≡ []) ⊎ (member s result.1 ≡ true)) ss

insert_all-Inserts : (ss ts : List Text) → Inserts ss ts (insert_all ss ts)
unfolding insert_all insert
insert_all-Inserts [] ts = record {
  new = [];
  grown = sym (append-nil ts);
  count = refl;
  present = tt;
}
insert_all-Inserts ([] ∷ ss) ts =
    let rest = insert_all-Inserts ss ts in
    record {
      new = rest.new;
      grown = rest.grown;
      count = rest.count;
      present = (inl refl, rest.present);
    }
insert_all-Inserts ((c ∷ s) ∷ ss) ts = elim (Bool-cases (member (c ∷ s) ts)) [
  | inl old ↦
      let rest = insert_all-Inserts ss ts in
      let kept =
        subst (λ r. member (c ∷ s) r ≡ true) (sym rest.grown)
          (member-append (c ∷ s) ts rest.new old) in
      rw (lt→ltb 0 (length (c ∷ s)) (omega arith), insert, old)
        (record {
          new = rest.new;
          grown = rest.grown;
          count = rest.count;
          present = (inr kept, rest.present);
        })
  | inr new ↦
      let rest = insert_all-Inserts ss (ts ++ ((c ∷ s) ∷ [])) in
      let kept =
        subst (λ r. member (c ∷ s) r ≡ true) (sym rest.grown)
          (member-append (c ∷ s) (ts ++ ((c ∷ s) ∷ [])) rest.new (member-last (c ∷ s) ts)) in
      rw (lt→ltb 0 (length (c ∷ s)) (omega arith), insert, new)
        (record {
          new = (c ∷ s) ∷ rest.new;
          grown = rest.grown ∙ append_assoc ts ((c ∷ s) ∷ []) rest.new;
          count = omega (arith, rest.count);
          present = (inr kept, rest.present);
        })
]

-- The rules and the file after a batch.
pub record Adds (nicknames ips : List Text) (m : Manager) (result : ℕ × Manager) : Type 0 where
  pub nicks : All (λ s. (s ≡ []) ⊎ (member s result.1.rules.nicks ≡ true)) nicknames
  pub addresses : All (λ s. (s ≡ []) ⊎ (member s result.1.rules.ips ≡ true)) ips
  pub keywords : result.1.rules.keywords ≡ m.rules.keywords
  pub count :
      length result.1.rules.nicks + length result.1.rules.ips
      ≡ length m.rules.nicks + length m.rules.ips + result.0
  pub filed : result.1.file ≡ some (persist_to_file result.1.rules)

-- Whether the file can be written or not, the sets have the batch.
pub add_batch-present :
    (writable : Bool) (nicknames ips : List Text) (m : Manager)
    → All
        (λ s. (s ≡ []) ⊎ (member s (add_batch writable nicknames ips m).1.rules.nicks ≡ true))
        nicknames
      × All (λ s. (s ≡ []) ⊎ (member s (add_batch writable nicknames ips m).1.rules.ips ≡ true)) ips
unfolding add_batch
add_batch-present writable nicknames ips m =
    let a = insert_all-Inserts nicknames m.rules.nicks in
    let b = insert_all-Inserts ips m.rules.ips in
    let new : ℕ = (insert_all nicknames m.rules.nicks).0 + (insert_all ips m.rules.ips).0 in
    let m' : Manager = record m {
      rules = record (m.rules) {
        nicks = (insert_all nicknames m.rules.nicks).1;
        ips = (insert_all ips m.rules.ips).1;
      };
    } in
    if_holds
      (λ r.
        All (λ s. (s ≡ []) ⊎ (member s r.rules.nicks ≡ true)) nicknames
        × All (λ s. (s ≡ []) ⊎ (member s r.rules.ips ≡ true)) ips)
      (ltb 0 new) (persist writable m') m' (persisted writable m' (a.present, b.present))
      (a.present, b.present)
  where
    persisted :
        (w : Bool) (m' : Manager)
        → All (λ s. (s ≡ []) ⊎ (member s m'.rules.nicks ≡ true)) nicknames
          × All (λ s. (s ≡ []) ⊎ (member s m'.rules.ips ≡ true)) ips
        → All (λ s. (s ≡ []) ⊎ (member s (persist w m').rules.nicks ≡ true)) nicknames
          × All (λ s. (s ≡ []) ⊎ (member s (persist w m').rules.ips ≡ true)) ips
    persisted true m' h = h
    persisted false m' h = h

none_new : (new : List Text) → length new ≡ 0 → new ≡ []
none_new [] h = refl
none_new (s ∷ new) h = absurd (omega arith)

module _ (nicknames ips : List Text) (m : Manager)
    (e : m.file ≡ some (persist_to_file m.rules)) where
  abbrev added : ℕ
  added = (insert_all nicknames m.rules.nicks).0 + (insert_all ips m.rules.ips).0

  abbrev enlarged : Manager
  enlarged = record m {
    rules = record (m.rules) {
      nicks = (insert_all nicknames m.rules.nicks).1;
      ips = (insert_all ips m.rules.ips).1;
    };
  }

  same_rules : (ltb 0 added ≡ false) → m.rules ≡ enlarged.rules
  same_rules h =
      let a = insert_all-Inserts nicknames m.rules.nicks in
      let b = insert_all-Inserts ips m.rules.ips in
      let no_nicks = none_new a.new (ground (arith, a.count)) in
      let no_ips = none_new b.new (ground (arith, b.count)) in
      ap₂ (λ n i. record (m.rules) { nicks = n; ips = i })
        (sym (a.grown ∙ ap (λ l. m.rules.nicks ++ l) no_nicks ∙ append-nil m.rules.nicks))
        (sym (b.grown ∙ ap (λ l. m.rules.ips ++ l) no_ips ∙ append-nil m.rules.ips))

  -- If the file holds the rules and can be written, then after `AddBatch` every nickname and
  -- address of the batch that is not empty is in its set, the result counts the new ones, the
  -- keywords are as they were, and the file holds the rules again.
  pub add_batch-Adds : Adds nicknames ips m (add_batch true nicknames ips m)
  unfolding add_batch
  add_batch-Adds =
      let a = insert_all-Inserts nicknames m.rules.nicks in
      let b = insert_all-Inserts ips m.rules.ips in
      record {
        nicks =
            if_holds (λ r. All (λ s. (s ≡ []) ⊎ (member s r.rules.nicks ≡ true)) nicknames)
              (ltb 0 added) (persist true enlarged) enlarged a.present a.present;
        addresses =
            if_holds (λ r. All (λ s. (s ≡ []) ⊎ (member s r.rules.ips ≡ true)) ips) (ltb 0 added)
              (persist true enlarged) enlarged b.present b.present;
        keywords =
            if_holds (λ r. r.rules.keywords ≡ m.rules.keywords) (ltb 0 added)
              (persist true enlarged) enlarged refl refl;
        count =
            if_holds
              (λ r.
                length r.rules.nicks + length r.rules.ips
                ≡ length m.rules.nicks + length m.rules.ips + added)
              (ltb 0 added) (persist true enlarged) enlarged total total;
        filed = elim (Bool-cases (ltb 0 added)) [
          | inl some_new ↦
              ap (λ t. (if t then persist true enlarged else enlarged).file) some_new
              ∙ ap
                  (λ t.
                    some (persist_to_file (if t then persist true enlarged else enlarged).rules))
                  (sym some_new)
          | inr no_new ↦
              ap (λ t. (if t then persist true enlarged else enlarged).file) no_new
              ∙ e
              ∙ ap (λ r. some (persist_to_file r)) (same_rules no_new)
              ∙ ap
                  (λ t.
                    some (persist_to_file (if t then persist true enlarged else enlarged).rules))
                  (sym no_new)
        ];
      }
    where
      total :
          length (insert_all nicknames m.rules.nicks).1 + length (insert_all ips m.rules.ips).1
          ≡ length m.rules.nicks + length m.rules.ips + added
      total =
          let a = insert_all-Inserts nicknames m.rules.nicks in
          let b = insert_all-Inserts ips m.rules.ips in
          omega (
            arith,
            a.count,
            b.count,
            ap length a.grown,
            ap length b.grown,
            length-append m.rules.nicks a.new,
            length-append m.rules.ips b.new,
          )

  -- If the file holds the rules and can be written, and the rules after `AddBatch` can stand in
  -- the file, then a reload, as after a restart, finds the rules as the batch left them.
  pub reload-add_batch :
      IsWritable (add_batch true nicknames ips m).1.rules
      → reload (add_batch true nicknames ips m).1 ≡ (add_batch true nicknames ips m).1
  unfolding reload
  reload-add_batch w =
      let m' = (add_batch true nicknames ips m).1 in
      ap (λ r. record m' { rules = r })
        (ap fetch_latest_black_list add_batch-Adds.filed ∙ fetch-persist m'.rules w)
