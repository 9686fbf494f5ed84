-- ===== src/App/Blacklist/Examples.antt =====
-- Two nicknames and an address, and a nickname that breaks the file.
use mini_reactor.Base.{◌≡◌, ◌↔◌, refl, true, false, [], ◌∷◌, ◌++◌, some, All, arith, ltb, ◌&&◌}
use mini_reactor.Base.Bytes.{codes, to_lower}
use mini_reactor.App.Blacklist.{
  BlackListData, Manager, fetch_latest_black_list, persist_to_file, add_batch, check_comment,
  reload, no_reason, member, trim, drop_cr, lower,
}
use mini_reactor.App.Blacklist.File.{IsEntry, IsWritable, fetch-persist}
use mini_reactor.App.Blacklist.Checking.{Misses, check_comment-passes}
use mini_reactor.App.Blacklist.Batch.{Adds, add_batch-Adds, reload-add_batch}

abbrev rules : BlackListData
rules = record {
  nicks = codes "ann" ∷ codes "bob" ∷ [];
  ips = codes "10.0.0.1" ∷ [];
  keywords = codes "spam" ∷ [];
}

ann-IsEntry : IsEntry (codes "ann")
unfolding trim drop_cr
ann-IsEntry = record { one_line = omega arith; trimmed = refl; kept = refl; plain = refl }

bob-IsEntry : IsEntry (codes "bob")
unfolding trim drop_cr
bob-IsEntry = record { one_line = omega arith; trimmed = refl; kept = refl; plain = refl }

address-IsEntry : IsEntry (codes "10.0.0.1")
unfolding trim drop_cr
address-IsEntry = record { one_line = omega arith; trimmed = refl; kept = refl; plain = refl }

spam-IsEntry : IsEntry (codes "spam")
unfolding trim drop_cr
spam-IsEntry = record { one_line = omega arith; trimmed = refl; kept = refl; plain = refl }

rules-IsWritable : IsWritable rules
unfolding member to_lower
rules-IsWritable = record {
  nicks = (ann-IsEntry, (bob-IsEntry, tt));
  ips = (address-IsEntry, tt);
  keywords = (spam-IsEntry, tt);
  nick_set = (refl, (refl, tt));
  ip_set = (refl, tt);
  lower_case = (refl, tt);
}

fetch-persist_example : fetch_latest_black_list (some (persist_to_file rules)) ≡ rules
fetch-persist_example = fetch-persist rules rules-IsWritable

abbrev manager : Manager
manager = record {
  rules = record rules { nicks = codes "ann" ∷ []; ips = [] };
  file = some (persist_to_file (record rules { nicks = codes "ann" ∷ []; ips = [] }));
}

add_batch-Adds_example :
    Adds
      (codes "bob" ∷ [])
      (codes "10.0.0.1" ∷ [])
      manager
      (add_batch true (codes "bob" ∷ []) (codes "10.0.0.1" ∷ []) manager)
add_batch-Adds_example = add_batch-Adds (codes "bob" ∷ []) (codes "10.0.0.1" ∷ []) manager refl

reload-add_batch_example :
    reload (add_batch true (codes "bob" ∷ []) (codes "10.0.0.1" ∷ []) manager).1
    ≡ (add_batch true (codes "bob" ∷ []) (codes "10.0.0.1" ∷ []) manager).1
unfolding add_batch member
reload-add_batch_example =
    reload-add_batch (codes "bob" ∷ []) (codes "10.0.0.1" ∷ []) manager refl rules-IsWritable

check_comment-passes_example :
    ((check_comment (codes "eve") [] (codes "hello") rules).0 ≡ no_reason) ↔ (
      (member (codes "eve") rules.nicks ≡ false)
      × ((ltb 0 0 && member [] rules.ips) ≡ false)
      × All (Misses (lower (codes "hello"))) rules.keywords)
check_comment-passes_example = check_comment-passes (codes "eve") [] (codes "hello") rules

-- A nickname with a newline comes back as an address.
injected :
    fetch_latest_black_list (
      some (
        persist_to_file
          (record rules { nicks = (codes "x" ++ (10 ∷ codes "[ip]") ++ (10 ∷ codes "y")) ∷ [] })))
    ≡ record rules { nicks = codes "x" ∷ []; ips = codes "y" ∷ codes "10.0.0.1" ∷ [] }
unfolding fetch_latest_black_list persist_to_file to_lower
injected = refl
