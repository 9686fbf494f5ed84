-- ===== src/App/Blacklist/File.antt =====
-- The rule file: what is written is read back.
use mini_reactor.Base.{
  ◌==◌, ◌≡◌, ◌≢◌, refl, sym, ap, ◌∙◌, false, List, [], ◌∷◌, ◌++◌, some, All, append-nil,
  append_assoc, arith,
}
use mini_reactor.Base.Bytes.{codes}
use mini_reactor.App.Blacklist.{
  Text, lower, BlockReason, no_reason, nickname, ip, keyword, BlackListData, no_rules, member,
  insert, lines, drop_cr, trim, is_skipped, is_section, read_line, read_lines,
  fetch_latest_black_list, entries, header_lines, persist_to_file, add_entry,
}

-- An entry that a line of the file can carry: no newline, no blanks or '\r' at its ends, not
-- empty, no comment and no section.
pub record IsEntry (s : Text) : Type 0 where
  pub one_line : All (λ c. c ≢ 10) s
  pub trimmed : trim (drop_cr s) ≡ s
  pub kept : is_skipped s ≡ false
  pub plain : is_section s ≡ false

-- No entry is among those before it.
abbrev pub AllNew : List Text → List Text → Type 0
AllNew ts [] = Unit
AllNew ts (s ∷ ss) = (member s ts ≡ false) × AllNew (ts ++ (s ∷ [])) ss

lines_entry : (s rest : Text) → All (λ c. c ≢ 10) s → lines (s ++ (10 ∷ rest)) ≡ s ∷ lines rest
unfolding lines
lines_entry [] rest h = refl
lines_entry (c ∷ s) rest h =
    let other : (c == 10) ≡ false = ground (arith, h.0) in rw (other, lines_entry s rest h.1) refl

lines-entries :
    (ss : List Text) (rest : Text)
    → All (λ s. All (λ c. c ≢ 10) s) ss
    → lines (entries ss rest) ≡ ss ++ lines rest
lines-entries [] rest h = refl
lines-entries (s ∷ ss) rest h =
    lines_entry s (entries ss rest) h.0 ∙ ap (λ l. s ∷ l) (lines-entries ss rest h.1)

read_lines-append :
    (ls ms : List Text) (st : BlockReason × BlackListData)
    → read_lines (ls ++ ms) st ≡ read_lines ms (read_lines ls st)
unfolding read_lines
read_lines-append [] ms st = refl
read_lines-append (l ∷ ls) ms st = read_lines-append ls ms (read_line l st)

read_entry :
    (s : Text) (cur : BlockReason) (rules : BlackListData)
    → IsEntry s
    → read_line s (cur, rules) ≡ (cur, add_entry cur s rules)
unfolding read_line
read_entry s cur rules e = rw (e.trimmed, e.kept, e.plain) refl

read_nicks :
    (ss ts ips keywords : List Text)
    → All IsEntry ss
    → AllNew ts ss
    → read_lines ss (nickname, record { nicks = ts; ips = ips; keywords = keywords })
      ≡ (nickname, record { nicks = ts ++ ss; ips = ips; keywords = keywords })
unfolding read_lines add_entry insert
read_nicks [] ts ips keywords e new =
    ap (λ l. (nickname, record { nicks = l; ips = ips; keywords = keywords })) (sym (append-nil ts))
read_nicks (s ∷ ss) ts ips keywords e new =
    ap (read_lines ss) (
      read_entry s nickname (record { nicks = ts; ips = ips; keywords = keywords }) e.0
      ∙ rw new.0 refl)
    ∙ read_nicks ss (ts ++ (s ∷ [])) ips keywords e.1 new.1
    ∙ ap (λ l. (nickname, record { nicks = l; ips = ips; keywords = keywords }))
        (append_assoc ts (s ∷ []) ss)

read_ips :
    (ss nicks ts keywords : List Text)
    → All IsEntry ss
    → AllNew ts ss
    → read_lines ss (ip, record { nicks = nicks; ips = ts; keywords = keywords })
      ≡ (ip, record { nicks = nicks; ips = ts ++ ss; keywords = keywords })
unfolding read_lines add_entry insert
read_ips [] nicks ts keywords e new =
    ap (λ l. (ip, record { nicks = nicks; ips = l; keywords = keywords })) (sym (append-nil ts))
read_ips (s ∷ ss) nicks ts keywords e new =
    ap (read_lines ss) (
      read_entry s ip (record { nicks = nicks; ips = ts; keywords = keywords }) e.0 ∙ rw new.0 refl)
    ∙ read_ips ss nicks (ts ++ (s ∷ [])) keywords e.1 new.1
    ∙ ap (λ l. (ip, record { nicks = nicks; ips = l; keywords = keywords }))
        (append_assoc ts (s ∷ []) ss)

read_keywords :
    (ss nicks ips ts : List Text)
    → All IsEntry ss
    → All (λ s. lower s ≡ s) ss
    → read_lines ss (keyword, record { nicks = nicks; ips = ips; keywords = ts })
      ≡ (keyword, record { nicks = nicks; ips = ips; keywords = ts ++ ss })
unfolding read_lines add_entry
read_keywords [] nicks ips ts e low =
    ap (λ l. (keyword, record { nicks = nicks; ips = ips; keywords = l })) (sym (append-nil ts))
read_keywords (s ∷ ss) nicks ips ts e low =
    ap (read_lines ss) (
      read_entry s keyword (record { nicks = nicks; ips = ips; keywords = ts }) e.0
      ∙ ap (λ t. (keyword, record { nicks = nicks; ips = ips; keywords = ts ++ (t ∷ []) })) low.0)
    ∙ read_keywords ss nicks ips (ts ++ (s ∷ [])) e.1 low.1
    ∙ ap (λ l. (keyword, record { nicks = nicks; ips = ips; keywords = l }))
        (append_assoc ts (s ∷ []) ss)

-- Rules that the file can hold.
pub record IsWritable (rules : BlackListData) : Type 0 where
  pub nicks : All IsEntry rules.nicks
  pub ips : All IsEntry rules.ips
  pub keywords : All IsEntry rules.keywords
  pub nick_set : AllNew [] rules.nicks
  pub ip_set : AllNew [] rules.ips
  pub lower_case : All (λ s. lower s ≡ s) rules.keywords

entries-one_line : (ss : List Text) → All IsEntry ss → All (λ s. All (λ c. c ≢ 10) s) ss
entries-one_line [] h = tt
entries-one_line (s ∷ ss) h = (h.0.one_line, entries-one_line ss h.1)

-- The lines of the file that `PersistToFile` writes.
abbrev written : BlackListData → List Text
written rules =
    header_lines
    ++ (codes "[nick]"
        ∷ (rules.nicks ++ (codes "[ip]" ∷ (rules.ips ++ (codes "[kw]" ∷ rules.keywords)))))

lines-header : (rest : Text) → lines (entries header_lines rest) ≡ header_lines ++ lines rest
unfolding lines
lines-header rest = refl

lines-sections :
    (rest : Text)
    → (lines (entries (codes "[nick]" ∷ []) rest) ≡ codes "[nick]" ∷ lines rest)
      × (lines (entries (codes "[ip]" ∷ []) rest) ≡ codes "[ip]" ∷ lines rest)
      × (lines (entries (codes "[kw]" ∷ []) rest) ≡ codes "[kw]" ∷ lines rest)
unfolding lines
lines-sections rest = (refl, refl, refl)

no_lines : lines [] ≡ []
unfolding lines
no_lines = refl

lines_persisted :
    (rules : BlackListData) → IsWritable rules → lines (persist_to_file rules) ≡ written rules
unfolding persist_to_file
lines_persisted rules w =
    let after_kw = entries rules.keywords [] in
    let after_ips = entries (codes "[kw]" ∷ []) after_kw in
    let after_ip = entries rules.ips after_ips in
    let after_nicks = entries (codes "[ip]" ∷ []) after_ip in
    let after_nick = entries rules.nicks after_nicks in
    lines-header (entries (codes "[nick]" ∷ []) after_nick)
    ∙ ap (λ l. header_lines ++ l)
        ((lines-sections after_nick).0
          ∙ ap (λ l. codes "[nick]" ∷ l)
              (lines-entries rules.nicks after_nicks (entries-one_line rules.nicks w.nicks)
                ∙ ap (λ l. rules.nicks ++ l)
                    ((lines-sections after_ip).1
                      ∙ ap (λ l. codes "[ip]" ∷ l)
                          (lines-entries rules.ips after_ips (entries-one_line rules.ips w.ips)
                            ∙ ap (λ l. rules.ips ++ l)
                                ((lines-sections after_kw).2
                                  ∙ ap (λ l. codes "[kw]" ∷ l)
                                      (lines-entries rules.keywords []
                                          (entries-one_line rules.keywords w.keywords)
                                        ∙ ap (λ l. rules.keywords ++ l) no_lines
                                        ∙ append-nil rules.keywords))))))

read_sections :
    (ls : List Text) (cur : BlockReason) (rules : BlackListData)
    → (read_lines (header_lines ++ ls) (cur, rules) ≡ read_lines ls (cur, rules))
      × (read_lines (codes "[nick]" ∷ ls) (cur, rules) ≡ read_lines ls (nickname, rules))
      × (read_lines (codes "[ip]" ∷ ls) (cur, rules) ≡ read_lines ls (ip, rules))
      × (read_lines (codes "[kw]" ∷ ls) (cur, rules) ≡ read_lines ls (keyword, rules))
unfolding read_lines
read_sections ls cur rules = (refl, refl, refl, refl)

-- What `PersistToFile` writes, `FetchLatestBlackList` reads back, entry for entry, if every entry
-- can stand on a line, no set has an entry twice and the keywords are in lower case.
pub fetch-persist :
    (rules : BlackListData)
    → IsWritable rules
    → fetch_latest_black_list (some (persist_to_file rules)) ≡ rules
unfolding fetch_latest_black_list
fetch-persist rules w =
    let kws = codes "[kw]" ∷ rules.keywords in
    let ips = codes "[ip]" ∷ (rules.ips ++ kws) in
    let with_nicks : BlackListData = record { nicks = rules.nicks; ips = []; keywords = [] } in
    let with_ips : BlackListData = record { nicks = rules.nicks; ips = rules.ips; keywords = [] } in
    ap (λ ls. (read_lines ls (no_reason, no_rules)).1) (lines_persisted rules w)
    ∙ ap (λ r. r.1)
        ((read_sections (codes "[nick]" ∷ (rules.nicks ++ ips)) no_reason no_rules).0
          ∙ (read_sections (rules.nicks ++ ips) no_reason no_rules).1
          ∙ read_lines-append rules.nicks ips (nickname, no_rules)
          ∙ ap (read_lines ips) (read_nicks rules.nicks [] [] [] w.nicks w.nick_set)
          ∙ (read_sections (rules.ips ++ kws) nickname with_nicks).2
          ∙ read_lines-append rules.ips kws (ip, with_nicks)
          ∙ ap (read_lines kws) (read_ips rules.ips rules.nicks [] [] w.ips w.ip_set)
          ∙ (read_sections rules.keywords ip with_ips).3
          ∙ read_keywords rules.keywords rules.nicks rules.ips [] w.keywords w.lower_case)
