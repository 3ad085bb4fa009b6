-- ===== src/WorkerPool/Tests.antt =====
-- The semaphores of two workers, with room for one task each.
use openworkers_runner.Common.{
  List, Option, [], arith, nat_eq, option_eq, refl, some, string_eq, ℕ, ◌∷◌, ◌≡◌, ◌≤◌,
}
use openworkers_runner.Common.Maps.{adjust, insert, remove, retain}
use openworkers_runner.Common.Maps
use openworkers_runner.WorkerPool.{
  Semaphore, Step, get_worker_semaphore, gets, gives_up, in_use, initial, prune, run, starts, step,
}
use openworkers_runner.WorkerPool.Slots.{one_semaphore}

-- The second task of "a" waits until the first one ends.
abbrev visits : List Step
visits = gets "a" ∷ starts 0 ∷ gets "b" ∷ gets "a" ∷ starts 0 ∷ gives_up 1 ∷ []

left : ℕ → Option Semaphore
unfolding run step get_worker_semaphore prune in_use Maps.lookup retain insert remove adjust
left id = Maps.lookup id (run 1 visits initial).heap

one_runs_and_one_waits : left 0 ≡ some (record { owner = "a"; waiting = 1; running = 1 })
unfolding left
one_runs_and_one_waits = refl

-- At its size limit the map drops the semaphore that no task holds, and keeps the other.
drops_the_idle_one :
    (prune (record (run 1 visits initial) { prune_at = 2 })).semaphores ≡ ("a", 0) ∷ []
unfolding left
drops_the_idle_one = refl

found_again :
    Maps.lookup 0 (run 1 visits initial).heap
    ≡ some (record { owner = "a"; waiting = 1; running = 1 })
unfolding left
found_again = refl

one_semaphore_example :
    let id : ℕ = 0 in
    (id ≡ 0) × (Maps.lookup "a" (run 1 visits initial).semaphores ≡ some id) × (1 ≤ 1)
one_semaphore_example =
    one_semaphore 1 visits 0 0 (record { owner = "a"; waiting = 1; running = 1 })
      (record { owner = "a"; waiting = 1; running = 1 }) found_again found_again refl (omega arith)
      (omega arith)
