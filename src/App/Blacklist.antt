-- ===== src/App/Blacklist.antt =====
-- The blacklist: app/repository/BlacklistManager.h and BlacklistManager.cpp. Texts are bytes. A
-- set is the list of its members, in the order of its iteration; the rule file is its bytes.
pub mod File
pub mod Checking
pub mod Batch
mod Examples
use mini_reactor.Base.{
  ℕ, zero, suc, ◌+◌, ◌==◌, ltb, if◌then◌else◌, Bool, true, false, not, ◌&&◌, ◌||◌, List, [], ◌∷◌,
  ◌++◌, map, Option, none, some, length,
}
use mini_reactor.Base.Bytes.{codes, bytes_eq, to_lower}

abbrev pub Text : Type 0
Text = List ℕ

-- Bytes from 0x80 on stay as they are.
abbrev pub lower : Text → Text
lower s = map to_lower s

unfoldable pub is_blank : ℕ → Bool
is_blank c = c == 32 || c == 9

unfoldable pub trim_start : Text → Text
unfolding is_blank
trim_start [] = []
trim_start (c ∷ s) = if is_blank c then trim_start s else c ∷ s

abbrev pub keep_unless : Bool → ℕ → Text → Text
keep_unless blank c (d ∷ s) = c ∷ d ∷ s
keep_unless true c [] = []
keep_unless false c [] = c ∷ []

unfoldable pub trim_end : Text → Text
unfolding is_blank
trim_end [] = []
trim_end (c ∷ s) = keep_unless (is_blank c) c (trim_end s)

unfoldable pub trim : Text → Text
unfolding trim_start trim_end
trim s = trim_end (trim_start s)

pub data BlockReason : Type 0 where
  no_reason nickname ip keyword : BlockReason

pub record BlackListData : Type 0 where
  pub nicks : List Text
  pub ips : List Text
  pub keywords : List Text

abbrev pub no_rules : BlackListData
no_rules = record { nicks = []; ips = []; keywords = [] }

unfoldable pub member : Text → List Text → Bool
unfolding bytes_eq
member s [] = false
member s (t ∷ ts) = bytes_eq t s || member s ts

-- `unordered_set::insert`.
unfoldable pub insert : Text → List Text → List Text
unfolding member
insert s ts = if member s ts then ts else ts ++ (s ∷ [])

-- `getline`, until the end of the file.
unfoldable pub lines : Text → List Text
lines [] = []
lines (c ∷ s) =
    let rest = lines s in
    if c == 10 then [] ∷ rest else elim rest [ [] ↦ (c ∷ []) ∷ [] | l ∷ ls ↦ (c ∷ l) ∷ ls ]

-- A '\r' at the end of a line.
unfoldable pub drop_cr : Text → Text
drop_cr [] = []
drop_cr (c ∷ []) = if c == 13 then [] else c ∷ []
drop_cr (c ∷ d ∷ s) = c ∷ drop_cr (d ∷ s)

-- `line.back() == ']'`, and the line without its last byte.
abbrev pub closes : Text → Bool
closes [] = false
closes (c ∷ []) = c == b']'
closes (c ∷ d ∷ s) = closes (d ∷ s)

abbrev pub but_last : Text → Text
but_last [] = []
but_last (c ∷ []) = []
but_last (c ∷ d ∷ s) = c ∷ but_last (d ∷ s)

-- The tag of a line in brackets; of the line "]" alone there is none, nor of "[".
abbrev pub is_section : Text → Bool
is_section [] = false
is_section (c ∷ s) = c == b'[' && closes (c ∷ s)

abbrev pub tag_of : Text → Text
tag_of [] = []
tag_of (c ∷ s) = but_last s

unfoldable pub section_of : Text → BlockReason
unfolding bytes_eq
section_of tag =
    if bytes_eq tag (codes "nick")
    then nickname
    else if bytes_eq tag (codes "ip")
    then ip
    else if bytes_eq tag (codes "kw")
    then keyword
    else no_reason

unfoldable pub add_entry : BlockReason → Text → BlackListData → BlackListData
unfolding insert
add_entry no_reason s data_ = data_
add_entry nickname s data_ = record data_ { nicks = insert s data_.nicks }
add_entry ip s data_ = record data_ { ips = insert s data_.ips }
add_entry keyword s data_ = record data_ { keywords = data_.keywords ++ (lower s ∷ []) }

abbrev pub is_skipped : Text → Bool
is_skipped [] = true
is_skipped (c ∷ s) = c == b'#'

-- A line of the file, in the section `cur`.
unfoldable pub read_line : Text → BlockReason × BlackListData → BlockReason × BlackListData
unfolding trim drop_cr section_of add_entry
read_line raw (cur, data_) =
    let s = trim (drop_cr raw) in
    if is_skipped s
    then (cur, data_)
    else if is_section s
    then (section_of (tag_of s), data_)
    else (cur, add_entry cur s data_)

unfoldable pub read_lines : List Text → BlockReason × BlackListData → BlockReason × BlackListData
unfolding read_line
read_lines [] st = st
read_lines (l ∷ ls) st = read_lines ls (read_line l st)

-- `none` is a file that cannot be opened.
unfoldable pub fetch_latest_black_list : Option Text → BlackListData
unfolding lines read_lines
fetch_latest_black_list none = no_rules
fetch_latest_black_list (some file) = (read_lines (lines file) (no_reason, no_rules)).1

abbrev pub entries : List Text → Text → Text
entries [] rest = rest
entries (s ∷ ss) rest = s ++ (10 ∷ entries ss rest)

-- The two comment lines, in UTF-8.
abbrev pub header_lines : List Text
header_lines =
    (35 ∷ 32 ∷ 231 ∷ 149 ∷ 153 ∷ 232 ∷ 168 ∷ 128 ∷ 231 ∷ 179 ∷ 187 ∷ 231 ∷ 187 ∷ 159 ∷ 233 ∷ 187
      ∷ 145 ∷ 229 ∷ 144 ∷ 141 ∷ 229 ∷ 141 ∷ 149 ∷ 233 ∷ 133 ∷ 141 ∷ 231 ∷ 189 ∷ 174 ∷ 239 ∷ 188
      ∷ 136 ∷ 229 ∷ 141 ∷ 149 ∷ 230 ∷ 150 ∷ 135 ∷ 228 ∷ 187 ∷ 182 ∷ 229 ∷ 136 ∷ 134 ∷ 229 ∷ 140
      ∷ 186 ∷ 230 ∷ 160 ∷ 188 ∷ 229 ∷ 188 ∷ 143 ∷ 239 ∷ 188 ∷ 140 ∷ 231 ∷ 148 ∷ 177 ∷ 231 ∷ 179
      ∷ 187 ∷ 231 ∷ 187 ∷ 159 ∷ 232 ∷ 135 ∷ 170 ∷ 229 ∷ 138 ∷ 168 ∷ 231 ∷ 187 ∷ 180 ∷ 230 ∷ 138
      ∷ 164 ∷ 239 ∷ 188 ∷ 137 ∷ [])
    ∷ (35 ∷ 32 ∷ 231 ∷ 148 ∷ 168 ∷ 32 ∷ 91 ∷ 110 ∷ 105 ∷ 99 ∷ 107 ∷ 93 ∷ 32 ∷ 47 ∷ 32 ∷ 91 ∷ 105
        ∷ 112 ∷ 93 ∷ 32 ∷ 47 ∷ 32 ∷ 91 ∷ 107 ∷ 119 ∷ 93 ∷ 32 ∷ 229 ∷ 136 ∷ 135 ∷ 230 ∷ 141 ∷ 162
        ∷ 231 ∷ 187 ∷ 180 ∷ 229 ∷ 186 ∷ 166 ∷ 239 ∷ 188 ∷ 140 ∷ 230 ∷ 175 ∷ 143 ∷ 232 ∷ 161 ∷ 140
        ∷ 228 ∷ 184 ∷ 128 ∷ 228 ∷ 184 ∷ 170 ∷ 230 ∷ 157 ∷ 161 ∷ 231 ∷ 155 ∷ 174 ∷ 239 ∷ 188 ∷ 140
        ∷ 35 ∷ 32 ∷ 229 ∷ 188 ∷ 128 ∷ 229 ∷ 164 ∷ 180 ∷ 228 ∷ 184 ∷ 186 ∷ 230 ∷ 179 ∷ 168 ∷ 233
        ∷ 135 ∷ 138 ∷ [])
    ∷ []

-- What `PersistToFile` writes.
unfoldable pub persist_to_file : BlackListData → Text
persist_to_file data_ = entries header_lines (
    entries (codes "[nick]" ∷ []) (
      entries data_.nicks (
        entries (codes "[ip]" ∷ [])
          (entries data_.ips (entries (codes "[kw]" ∷ []) (entries data_.keywords []))))))

pub record Manager : Type 0 where
  pub rules : BlackListData
  pub file : Option Text

unfoldable pub reload : Manager → Manager
unfolding fetch_latest_black_list
reload m = record m { rules = fetch_latest_black_list m.file }

-- `PersistToFile`; the flag says whether the file can be opened.
abbrev pub persist : Bool → Manager → Manager
persist true m = record m { file = some (persist_to_file m.rules) }
persist false m = m

-- One loop of `AddBatch`: the number of new members, and the set.
unfoldable pub insert_all : List Text → List Text → ℕ × List Text
unfolding insert
insert_all [] set_ = (0, set_)
insert_all (s ∷ ss) set_ =
    let (skipped, same) = insert_all ss set_ in
    let (added, more) = insert_all ss (insert s set_) in
    if ltb 0 (length s)
    then if member s set_ then (added, more) else (added + 1, more)
    else (skipped, same)

unfoldable pub add_batch : Bool → List Text → List Text → Manager → ℕ × Manager
unfolding insert_all persist_to_file
add_batch writable nicknames ips m =
    let (new_nicks, nicks) = insert_all nicknames m.rules.nicks in
    let (new_ips, ips') = insert_all ips m.rules.ips in
    let added = new_nicks + new_ips in
    let m' = record m { rules = record (m.rules) { nicks = nicks; ips = ips' } } in
    (added, if ltb 0 added then persist writable m' else m')

unfoldable pub add_keyword : Bool → Text → Manager → Manager
unfolding member persist_to_file
add_keyword writable s m =
    if ltb 0 (length s) && not (member (lower s) m.rules.keywords)
    then persist writable
        (record m { rules = record (m.rules) { keywords = m.rules.keywords ++ (lower s ∷ []) } })
    else m

abbrev pub starts_with : Text → Text → Bool
starts_with [] s = true
starts_with (c ∷ p) [] = false
starts_with (c ∷ p) (d ∷ s) = c == d && starts_with p s

-- `content.find(kw) != npos`
unfoldable pub contains : Text → Text → Bool
contains kw [] = starts_with kw []
contains kw (c ∷ s) = starts_with kw (c ∷ s) || contains kw s

-- The first keyword that is not empty and stands in the text.
unfoldable pub first_hit : List Text → Text → BlockReason × Text
unfolding contains
first_hit [] s = (no_reason, [])
first_hit (kw ∷ kws) s =
    if ltb 0 (length kw) && contains kw s then (keyword, kw) else first_hit kws s

unfoldable pub check_comment : Text → Text → Text → BlackListData → BlockReason × Text
unfolding member first_hit
check_comment nick address content rules =
    if member nick rules.nicks
    then (nickname, nick)
    else if ltb 0 (length address) && member address rules.ips
    then (ip, address)
    else first_hit rules.keywords (lower content)
