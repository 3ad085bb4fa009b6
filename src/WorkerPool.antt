-- ===== src/WorkerPool.antt =====
-- src/worker_pool.rs: the semaphore of each worker, and the map that hands it out. An Arc is the
-- number of a semaphore, and its strong count is the map and the tasks that wait or run.
pub mod Prune
pub mod Slots
mod Tests
use openworkers_runner.Common.{
  Bool, List, Option, String, [], false, if◌then◌else◌, leb, ltb, max, nat_eq, none, option_eq,
  some, string_eq, suc, ℕ, ◌&&◌, ◌*◌, ◌+◌, ◌-◌, ◌∷◌,
}
use openworkers_runner.Common.Lists.{length}
use openworkers_runner.Common.Maps.{Map, adjust, insert, retain}
use openworkers_runner.Common.Maps

-- A semaphore: whose it is, the tasks that wait with a clone of the Arc, and those with a permit,
-- which holds one as well.
pub record Semaphore : Type 0 where
  pub owner : String
  pub waiting : ℕ
  pub running : ℕ

-- WORKER_LIMITERS, and the semaphores that are not freed, by number.
pub record WorkerLimiters : Type 0 where
  pub semaphores : Map String ℕ
  pub prune_at : ℕ
  pub heap : Map ℕ Semaphore
  pub next : ℕ

abbrev pub min_prune_at : ℕ
min_prune_at = 1024

-- `Arc::strong_count(semaphore) > 1`.
abbrev pub is_shared : Option Semaphore → Bool
is_shared none = false
is_shared (some s) = ltb 1 (1 + (s.waiting + s.running))

unfoldable pub in_use : Map ℕ Semaphore → ℕ → Bool
in_use heap id = is_shared (Maps.lookup id heap)

unfoldable pub prune : WorkerLimiters → WorkerLimiters
prune l =
    let kept : Map String ℕ = retain (λ _ id. in_use l.heap id) l.semaphores in
    if leb l.prune_at (length l.semaphores)
    then record l { semaphores = kept; prune_at = max (length kept * 2) min_prune_at }
    else l

abbrev pub wait_more : Semaphore → Semaphore
wait_more s = record s { waiting = suc s.waiting }

-- The entry of the map, and the clone that is handed out.
abbrev pub hand_out : String → Option ℕ → WorkerLimiters → ℕ × WorkerLimiters
hand_out worker_id (some id) l = (id, record l { heap = adjust id wait_more l.heap })
hand_out worker_id none l = (
  l.next,
  record l {
    semaphores = insert worker_id l.next l.semaphores;
    heap = insert l.next (record { owner = worker_id; waiting = 1; running = 0 }) l.heap;
    next = suc l.next;
  },
)

unfoldable pub get_worker_semaphore : String → WorkerLimiters → ℕ × WorkerLimiters
unfolding prune
get_worker_semaphore worker_id l =
    hand_out worker_id (Maps.lookup worker_id (prune l).semaphores) (prune l)

-- A request for the semaphore of a worker, and what a task does with the semaphore it got.
pub data Step : Type 0 where
  gets : String → Step
  starts gives_up ends : ℕ → Step

module _ (max_concurrent_per_worker : ℕ) where
  -- A task that waits takes a free permit.
  abbrev pub start_one : Semaphore → Semaphore
  start_one s =
      if ltb 0 s.waiting && ltb s.running max_concurrent_per_worker
      then record s { waiting = s.waiting - 1; running = suc s.running }
      else s

  -- A task stops waiting, or ends and drops its permit.
  abbrev pub give_up_one : Semaphore → Semaphore
  give_up_one s = record s { waiting = s.waiting - 1 }

  abbrev pub end_one : Semaphore → Semaphore
  end_one s = record s { running = s.running - 1 }

  unfoldable pub step : Step → WorkerLimiters → WorkerLimiters
  unfolding get_worker_semaphore
  step (gets worker_id) l = (get_worker_semaphore worker_id l).1
  step (starts id) l = record l { heap = adjust id start_one l.heap }
  step (gives_up id) l = record l { heap = adjust id give_up_one l.heap }
  step (ends id) l = record l { heap = adjust id end_one l.heap }

  unfoldable pub run : List Step → WorkerLimiters → WorkerLimiters
  unfolding step
  run [] l = l
  run (x ∷ xs) l = run xs (step x l)

abbrev pub initial : WorkerLimiters
initial = record { semaphores = []; prune_at = min_prune_at; heap = []; next = 0 }
