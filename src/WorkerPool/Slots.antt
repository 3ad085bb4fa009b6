-- ===== src/WorkerPool/Slots.antt =====
-- src/worker_pool.rs: the semaphores of the workers, step by step.
use openworkers_runner.Common.{
  Bool-cases, List, Option, Option-cases, String, [], ap, arith, eq_iff, inl, inr, nat_eq, nat_eqb,
  none, option_eq, refl, some, string_eq, sym, ℕ, ◌+◌, ◌<◌, ◌==◌, ◌∙◌, ◌∷◌, ◌≡◌, ◌≤◌, ◌⊎◌,
}
use openworkers_runner.Common.Maps.{Map, adjust, lookup-adjust, lookup-insert}
use openworkers_runner.Common.Maps
use openworkers_runner.Common.Maps.Counting.{Unique-insert}
use openworkers_runner.WorkerPool.{
  Semaphore, Step, WorkerLimiters, end_one, ends, get_worker_semaphore, gets, give_up_one, gives_up,
  hand_out, initial, prune, run, start_one, starts, step, wait_more,
}
use openworkers_runner.WorkerPool.Prune.{Inv, prune-Inv}

module _ (limit : ℕ) where
  -- What a change of one semaphore has to keep.
  abbrev pub Keeps : WorkerLimiters → ℕ → (Semaphore → Semaphore) → Type 0
  Keeps l id f =
      (s : Semaphore)
      → Maps.lookup id l.heap ≡ some s
      → ((f s).owner ≡ s.owner)
        × ((f s).running ≤ limit)
        × (0 < (f s).waiting + (f s).running → Maps.lookup s.owner l.semaphores ≡ some id)

  adjusted :
      (id j : ℕ) (f : Semaphore → Semaphore) (heap : Map ℕ Semaphore) (t : Semaphore)
      → Maps.lookup j (adjust id f heap) ≡ some t
      → (s : Semaphore) × (Maps.lookup j heap ≡ some s) × (((id ≡ j) × (t ≡ f s)) ⊎ (t ≡ s))
  adjusted id j f heap t h = elim (Option-cases (Maps.lookup j heap)) [
    | inl nothing ↦ absurd (ground (arith, lookup-adjust id j f heap))
    | inr (s, there) ↦ (
      s,
      there,
      elim (Bool-cases (nat_eqb id j)) [
        | inl hit ↦
            inl
              (ground (arith, lookup-adjust id j f heap), ground (arith, lookup-adjust id j f heap))
        | inr miss ↦ inr (ground (arith, lookup-adjust id j f heap))
      ],
    )
  ]

  adjust-Inv :
      (id : ℕ) (f : Semaphore → Semaphore) (l : WorkerLimiters)
      → Inv limit l
      → Keeps l id f
      → Inv limit (record l { heap = adjust id f l.heap })
  adjust-Inv id f l i k = record {
    unique = i.unique;
    owned = λ w j h.
        let (s, there, owns) = i.owned w j h in
        elim (Bool-cases (nat_eqb id j)) [
          | inl hit ↦
              let same : id ≡ j = ground arith in
              (f s, ground (arith, lookup-adjust id j f l.heap), (k s (rw same there)).0 ∙ owns)
          | inr miss ↦ (s, ground (arith, lookup-adjust id j f l.heap), owns)
        ];
    live = λ j t h.
        let (s, there, changed) = adjusted id j f l.heap t h in
        let before = i.live j s there in
        elim changed [
          | inr same ↦ rw same before
          | inl (at, same) ↦
              let here : Maps.lookup id l.heap ≡ some s = rw at there in
              let kept = k s here in
              rw same (kept.1, before.1, λ b. rw kept.0 (kept.2 b ∙ ap some at))
        ];
  }

  -- A new semaphore, for a worker that the map does not have.
  fresh-Inv :
      (w : String) (l : WorkerLimiters)
      → Inv limit l
      → Maps.lookup w l.semaphores ≡ none
      → Inv limit (hand_out w none l).1
  fresh-Inv w l i missing =
      let new : Semaphore = record { owner = w; waiting = 1; running = 0 } in
      record {
        unique = Unique-insert w l.next l.semaphores i.unique;
        owned = λ v id h. elim (Bool-cases (w == v)) [
          | inl hit ↦
              let same : w ≡ v = (eq_iff w v).0 hit in
              let first : id ≡ l.next = ground (arith, lookup-insert w v l.next l.semaphores) in
              (new, ground (arith, lookup-insert l.next id new l.heap), same)
          | inr miss ↦
              let (s, there, owns) =
                i.owned v id (ground (arith, lookup-insert w v l.next l.semaphores)) in
              let older : id < l.next = (i.live id s there).1 in
              (s, ground (arith, lookup-insert l.next id new l.heap), owns)
        ];
        live = λ id s h. elim (Bool-cases (nat_eqb l.next id)) [
          | inl hit ↦
              let same : s ≡ new = ground (arith, lookup-insert l.next id new l.heap) in
              let owns : s.owner ≡ w = ap (λ t. t.owner) same in
              (
                ground arith,
                ground arith,
                λ b. ground (arith, lookup-insert w s.owner l.next l.semaphores, eq_iff w s.owner),
              )
          | inr miss ↦
              let there : Maps.lookup id l.heap ≡ some s =
                ground (arith, lookup-insert l.next id new l.heap) in
              let before = i.live id s there in
              (
                before.0,
                omega (arith, before.1),
                λ b. ground (
                  arith,
                  before.2 b,
                  lookup-insert w s.owner l.next l.semaphores,
                  eq_iff w s.owner,
                ),
              )
        ];
      }

  get-Inv :
      (w : String) (found : Option ℕ) (l : WorkerLimiters)
      → Inv limit l
      → Maps.lookup w l.semaphores ≡ found
      → Inv limit (hand_out w found l).1
  get-Inv w none l i e = fresh-Inv w l i e
  get-Inv w (some id) l i e = adjust-Inv id wait_more l i (λ s there.
      let (t, there', owns) = i.owned w id e in
      let same : t ≡ s = ground arith in
      (refl, (i.live id s there).0, λ _. rw (sym (ap (λ u. u.owner) same) ∙ owns) e))

  step-Inv : (x : Step) (l : WorkerLimiters) → Inv limit l → Inv limit (step limit x l)
  unfolding step get_worker_semaphore
  step-Inv (gets w) l i =
      get-Inv w (Maps.lookup w (prune l).semaphores) (prune l) (prune-Inv limit l i) refl
  step-Inv (starts id) l i = adjust-Inv id (start_one limit) l i (λ s there.
      let before = i.live id s there in
      (ground arith, ground (arith, before.0), λ b. before.2 (ground (arith, b))))
  step-Inv (gives_up id) l i = adjust-Inv id (give_up_one limit) l i (λ s there.
      let before = i.live id s there in (refl, before.0, λ b. before.2 (omega (arith, b))))
  step-Inv (ends id) l i = adjust-Inv id (end_one limit) l i (λ s there.
      let before = i.live id s there in
      (refl, omega (arith, before.0), λ b. before.2 (omega (arith, b))))

  run-Inv : (xs : List Step) (l : WorkerLimiters) → Inv limit l → Inv limit (run limit xs l)
  unfolding run
  run-Inv [] l i = i
  run-Inv (x ∷ xs) l i = run-Inv xs (step limit x l) (step-Inv x l i)

  initial-Inv : Inv limit initial
  unfolding Maps.lookup
  initial-Inv = record {
    unique = tt;
    owned = λ w id h. absurd (ground arith);
    live = λ id s h. absurd (ground arith);
  }

-- A worker never runs more requests than its limit, however the map is pruned: after any sequence
-- of requests that get a semaphore, start, give up and end, two semaphores of one worker that
-- tasks wait for or hold are the same semaphore, the map hands out that one, and no more tasks
-- hold its permits than the limit.
pub one_semaphore :
    (limit : ℕ) (xs : List Step) (i j : ℕ) (s t : Semaphore)
    → Maps.lookup i (run limit xs initial).heap ≡ some s
    → Maps.lookup j (run limit xs initial).heap ≡ some t
    → s.owner ≡ t.owner
    → 0 < s.waiting + s.running
    → 0 < t.waiting + t.running
    → (i ≡ j)
      × (Maps.lookup s.owner (run limit xs initial).semaphores ≡ some i)
      × (s.running ≤ limit)
one_semaphore limit xs i j s t at_i at_j same used_i used_j =
    let inv : Inv limit (run limit xs initial) = run-Inv limit xs initial (initial-Inv limit) in
    let first = inv.live i s at_i in
    let second = inv.live j t at_j in
    let mapped : Maps.lookup s.owner (run limit xs initial).semaphores ≡ some j =
      rw same (second.2 used_j) in
    (ground (arith, first.2 used_i, mapped), first.2 used_i, first.0)
