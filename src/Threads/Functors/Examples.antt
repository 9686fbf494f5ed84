-- ===== src/Threads/Functors/Examples.antt =====
-- Two functors, the second queued while the loop is running the first.
use mini_reactor.Base.{◌≡◌, refl, List, [], ◌∷◌, inl}
use mini_reactor.Threads.Functors.{init, Step, queue, wake, turns, run}
use mini_reactor.Threads.Functors.Fifo.{IsAwake, Does, run-Does}

abbrev steps : List Step
steps = queue 1 ∷ wake ∷ turns ∷ turns ∷ queue 2 ∷ turns ∷ wake ∷ turns ∷ turns ∷ turns ∷ turns ∷ []

ran_in_order : (run steps init).ran ≡ 1 ∷ 2 ∷ []
unfolding run
ran_in_order = refl

init-IsAwake : IsAwake init
init-IsAwake = record { local = refl; wakes = inl refl }

run-Does_example : Does steps init (run steps init)
run-Does_example = run-Does steps init init-IsAwake
