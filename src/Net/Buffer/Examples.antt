-- ===== src/Net/Buffer/Examples.antt =====
-- The buffer at concrete bytes.
use mini_reactor.Base.{◌≡◌, refl, [], ◌∷◌, arith}
use mini_reactor.Net.Buffer.{Buffer, contents, append, retrieve, read_fd, received}
use mini_reactor.Net.Buffer.Contents.{IsValid, append_lem, retrieve_lem}
use mini_reactor.Net.Buffer.Reading.{returned, read_fd_lem}

-- Two bytes are read, two are unread, one place is free.
abbrev used : Buffer
used = record { buffer = 7 ∷ 8 ∷ 1 ∷ 2 ∷ 0 ∷ []; read_index = 2; write_index = 4 }

compacts : contents (append (5 ∷ 6 ∷ []) used) ≡ 1 ∷ 2 ∷ 5 ∷ 6 ∷ []
unfolding append
compacts = refl

grows : contents (append (3 ∷ 4 ∷ 5 ∷ 6 ∷ []) used) ≡ 1 ∷ 2 ∷ 3 ∷ 4 ∷ 5 ∷ 6 ∷ []
unfolding append
grows = refl

append_lem_example :
    IsValid (append (5 ∷ 6 ∷ []) used) × (contents (append (5 ∷ 6 ∷ []) used) ≡ 1 ∷ 2 ∷ 5 ∷ 6 ∷ [])
append_lem_example = append_lem (5 ∷ 6 ∷ []) used (omega arith)

retrieve_lem_example : IsValid (retrieve 1 used) × (contents (retrieve 1 used) ≡ 2 ∷ [])
retrieve_lem_example = retrieve_lem 1 used (omega arith)

read_fd_lem_example :
    IsValid (read_fd (received (3 ∷ 4 ∷ [])) used).1
    × (contents (read_fd (received (3 ∷ 4 ∷ [])) used).1 ≡ 1 ∷ 2 ∷ 3 ∷ 4 ∷ [])
    × ((read_fd (received (3 ∷ 4 ∷ [])) used).0 ≡ returned (received (3 ∷ 4 ∷ [])))
read_fd_lem_example = read_fd_lem (received (3 ∷ 4 ∷ [])) used (omega arith)
