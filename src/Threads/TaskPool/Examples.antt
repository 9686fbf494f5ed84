-- ===== src/Threads/TaskPool/Examples.antt =====
-- Three tasks, the last of them too late.
use mini_reactor.Base.{◌≡◌, refl, List, [], ◌∷◌, inl, arith}
use mini_reactor.Threads.TaskPool.{init, Step, add, stops, works, run}
use mini_reactor.Threads.TaskPool.Draining.{IsServed, Drains, run-Drains}

abbrev steps : List Step
steps = works ∷ add 1 ∷ add 2 ∷ works ∷ stops ∷ add 3 ∷ works ∷ works ∷ works ∷ []

done : ((run steps (init 2)).taken ≡ 1 ∷ 2 ∷ []) × ((run steps (init 2)).workers ≡ 0)
unfolding run
done = (refl, refl)

init-IsServed : IsServed (init 2)
init-IsServed = record { served = inl (omega arith) }

run-Drains_example : Drains steps (init 2) (run steps (init 2))
run-Drains_example = run-Drains steps (init 2) init-IsServed
