-- ===== src/App/Comments/Database/Laws.antt =====
-- What the documentation of SQLite says of the calls (numbers are signed 64-bit integers), over the table as the connection sees it and
-- as it is on disk.
use mini_reactor.Base.{
  ℕ, ◌^◌, ◌<◌, ◌==◌, length, if◌then◌else◌, ◌≡◌, ◌∙◌, Bool, true, false, List, Option, none, some,
  get_elem?,
}
use mini_reactor.App.Comments.{Text}
use mini_reactor.App.Comments.History.{Comment}
use mini_reactor.App.Comments.Restart.{stored}
use mini_reactor.App.Comments.Database.{Sqlite}

-- The rows by their number.
abbrev pub Table : Type 0
Table = ℕ → Option Comment

abbrev pub put_row : ℕ → Comment → Table → Table
put_row seq row t j = if j == seq then some row else t j

abbrev pub renamed : Text → Text → Option Comment → Option Comment
renamed nickname content none = none
renamed nickname content (some row) = some (record row { nickname = nickname; content = content })

abbrev pub update_row : Text → Text → ℕ → Table → Table
update_row nickname content seq t j = if j == seq then renamed nickname content (t j) else t j

pub record IsSqlite (sql : Sqlite) : Type 0 where
  pub seen : sql.Db → Table
  pub on_disk : sql.Db → Table
  pub is_open : sql.Db → Bool
  pub begin_keeps : (d : sql.Db) → on_disk (sql.begin_transaction d).1 ≡ on_disk d
  pub begin_starts :
      (d : sql.Db)
      → (sql.begin_transaction d).0 ≡ true
      → (seen (sql.begin_transaction d).1 ≡ on_disk d)
        × (is_open (sql.begin_transaction d).1 ≡ true)
  pub begin_nested :
      (d : sql.Db)
      → is_open d ≡ true
      → ((sql.begin_transaction d).0 ≡ false) × (is_open (sql.begin_transaction d).1 ≡ true)
  pub insert_keeps :
      (seq : ℕ) (n c i : Text) (d : sql.Db)
      → is_open d ≡ true
      → on_disk (sql.insert_or_replace seq n c i d).1 ≡ on_disk d
  pub insert_done :
      (seq : ℕ) (n c i : Text) (d : sql.Db)
      → (sql.insert_or_replace seq n c i d).0 ≡ true
      → (is_open (sql.insert_or_replace seq n c i d).1 ≡ is_open d)
        × (seen (sql.insert_or_replace seq n c i d).1
            ≡ put_row seq (record { nickname = n; content = c; ip = i }) (seen d))
  pub update_keeps :
      (n c : Text) (seq : ℕ) (d : sql.Db)
      → is_open d ≡ true
      → on_disk (sql.update_where n c seq d).1 ≡ on_disk d
  pub update_done :
      (n c : Text) (seq : ℕ) (d : sql.Db)
      → (sql.update_where n c seq d).0 ≡ true
      → (is_open (sql.update_where n c seq d).1 ≡ is_open d)
        × (seen (sql.update_where n c seq d).1 ≡ update_row n c seq (seen d))
  pub commit_done :
      (d : sql.Db)
      → (sql.commit d).0 ≡ true
      → (on_disk (sql.commit d).1 ≡ seen d) × (is_open (sql.commit d).1 ≡ false)
  pub commit_fails : (d : sql.Db) → (sql.commit d).0 ≡ false → on_disk (sql.commit d).1 ≡ on_disk d
  pub rollback_keeps : (d : sql.Db) → on_disk (sql.rollback d).1 ≡ on_disk d
  pub select_rows :
      (d : sql.Db) (h : List Comment)
      → length h < 2 ^ 63
      → ((seq : ℕ) → on_disk d seq ≡ get_elem? h seq)
      → sql.select_newest d ≡ stored h

-- No error of a statement ends its transaction; SQLite may do so when the disk is full, on an input
-- or output error, or without memory.
pub record IsPatient (sql : Sqlite) (laws : IsSqlite sql) : Type 0 where
  pub insert_stays :
      (seq : ℕ) (n c i : Text) (d : sql.Db)
      → laws.is_open d ≡ true
      → laws.is_open (sql.insert_or_replace seq n c i d).1 ≡ true
  pub update_stays :
      (n c : Text) (seq : ℕ) (d : sql.Db)
      → laws.is_open d ≡ true
      → laws.is_open (sql.update_where n c seq d).1 ≡ true

-- No call fails that can succeed.
pub record IsReliable (sql : Sqlite) (laws : IsSqlite sql) : Type 0 where
  pub begins : (d : sql.Db) → laws.is_open d ≡ false → (sql.begin_transaction d).0 ≡ true
  pub inserts : (seq : ℕ) (n c i : Text) (d : sql.Db) → (sql.insert_or_replace seq n c i d).0 ≡ true
  pub updates : (n c : Text) (seq : ℕ) (d : sql.Db) → (sql.update_where n c seq d).0 ≡ true
  pub commits : (d : sql.Db) → laws.is_open d ≡ true → (sql.commit d).0 ≡ true

pub reliable-IsPatient :
    (sql : Sqlite) (laws : IsSqlite sql) → IsReliable sql laws → IsPatient sql laws
reliable-IsPatient sql laws r = record {
  insert_stays = λ seq n c i d h. (laws.insert_done seq n c i d (r.inserts seq n c i d)).0 ∙ h;
  update_stays = λ n c seq d h. (laws.update_done n c seq d (r.updates n c seq d)).0 ∙ h;
}
