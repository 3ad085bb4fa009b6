-- ===== src/Limiter/Budget.antt =====
-- src/limiter.rs: how many calls a limiter grants, and how many hold a slot at once.
use openworkers_runner.Common.{
  Bool-cases, List, Option, String, [], ap, arith, get_or, if◌then◌else◌, inl, inr, leb, ltb, min,
  nat_eq, nat_eqb, none, option_eq, refl, some, string_eq, suc, ℕ, ◌+◌, ◌-◌, ◌<◌, ◌^◌, ◌∙◌, ◌∷◌,
  ◌≡◌, ◌≤◌, ◌⊎◌,
}
use openworkers_runner.Common.Lists.{all}
use openworkers_runner.Limiter.{
  BindingLimit, Calls, Move, count_call, enters, enters_in, fresh_calls, move, moves, new, releases,
  start_call, starts, undo, undoes,
}

-- The count is that of the granted calls and of those that take theirs back, and a call takes its
-- count back only where the budget is used up.
abbrev pub Counts : ℕ → Calls → Type 0
Counts limit c =
    (c.limiter.max_total ≡ limit)
    × (c.limiter.total_count ≡ c.granted + c.undoing)
    × (c.granted ≤ limit)
    × ((c.undoing ≡ 0) ⊎ (c.granted ≡ limit))

start_call-Counts :
    (limit : ℕ) (slots : Option (Option ℕ)) (n : ℕ) (c : Calls)
    → Counts limit c
    → Counts limit (start_call slots n c) × ((start_call slots n c).granted ≡ c.granted)
start_call-Counts limit none n c h = (h, refl)
start_call-Counts limit (some slots) n c h = (h, refl)

enters-Counts :
    (limit : ℕ) (c : Calls)
    → 0 < limit
    → c.limiter.total_count + 1 < 2 ^ 32
    → Counts limit c
    → Counts limit (move enters c)
      × ((move enters c).granted ≡ min (suc c.granted) limit)
      × ((move enters c).limiter.total_count ≡ c.limiter.total_count + 1)
unfolding move count_call
enters-Counts limit c b w h = elim (Bool-cases (leb c.limiter.max_total c.limiter.total_count)) [
  | inl over ↦ ground (arith, h.0, h.1, h.2, h.3)
  | inr under ↦ ground (arith, h.0, h.1, h.2, h.3)
]

undoes-Counts :
    (limit : ℕ) (c : Calls)
    → c.limiter.total_count < 2 ^ 32
    → Counts limit c
    → Counts limit (move undoes c)
      × ((move undoes c).granted ≡ c.granted)
      × ((move undoes c).limiter.total_count ≤ c.limiter.total_count)
unfolding move undo
undoes-Counts limit c w h = elim (Bool-cases (nat_eqb c.undoing 0)) [
  | inl none_left ↦ ground (arith, h.0, h.1, h.2, h.3)
  | inr some_left ↦ ground (arith, h.0, h.1, h.2, h.3)
]

starts-Counts :
    (limit : ℕ) (c : Calls)
    → Counts limit c
    → Counts limit (move starts c)
      × ((move starts c).granted ≡ c.granted)
      × ((move starts c).limiter.total_count ≤ c.limiter.total_count)
unfolding move
starts-Counts limit c h = ground (arith, h.0, h.1, h.2, h.3)

releases-Counts :
    (limit : ℕ) (c : Calls)
    → Counts limit c
    → Counts limit (move releases c)
      × ((move releases c).granted ≡ c.granted)
      × ((move releases c).limiter.total_count ≤ c.limiter.total_count)
unfolding move
releases-Counts limit c h = ground (arith, h.0, h.1, h.2, h.3)

granted_by :
    (limit : ℕ) (ms : List Move) (c : Calls)
    → 0 < limit
    → c.limiter.total_count + enters_in ms < 2 ^ 32
    → Counts limit c
    → (moves ms c).granted ≡ min (c.granted + enters_in ms) limit
unfolding moves
granted_by limit [] c b w h = omega (arith, h.2)
granted_by limit (enters ∷ ms) c b w h =
    let k = enters-Counts limit c b (omega arith) h in
    granted_by limit ms (move enters c) b (omega (arith, w, k.2)) k.0 ∙ omega (arith, k.1)
granted_by limit (undoes ∷ ms) c b w h =
    let k = undoes-Counts limit c (omega arith) h in
    granted_by limit ms (move undoes c) b (omega (arith, w, k.2)) k.0 ∙ omega (arith, k.1)
granted_by limit (starts ∷ ms) c b w h =
    let k = starts-Counts limit c h in
    granted_by limit ms (move starts c) b (omega (arith, w, k.2)) k.0 ∙ omega (arith, k.1)
granted_by limit (releases ∷ ms) c b w h =
    let k = releases-Counts limit c h in
    granted_by limit ms (move releases c) b (omega (arith, w, k.2)) k.0 ∙ omega (arith, k.1)

-- Without a limit every call is granted.
unlimited_move :
    (m : Move) (c : Calls)
    → c.limiter.max_total ≡ 0
    → ((move m c).limiter.max_total ≡ 0) × ((move m c).granted ≡ c.granted + enters_in (m ∷ []))
unfolding move count_call undo
unlimited_move enters c h = ground arith
unlimited_move undoes c h = ground arith
unlimited_move starts c h = ground arith
unlimited_move releases c h = ground arith

enters_cons : (m : Move) (ms : List Move) → enters_in (m ∷ ms) ≡ enters_in (m ∷ []) + enters_in ms
enters_cons enters ms = omega arith
enters_cons undoes ms = omega arith
enters_cons starts ms = omega arith
enters_cons releases ms = omega arith

granted_all :
    (ms : List Move) (c : Calls)
    → c.limiter.max_total ≡ 0
    → (moves ms c).granted ≡ c.granted + enters_in ms
unfolding moves
granted_all [] c h = omega arith
granted_all (m ∷ ms) c h =
    let k = unlimited_move m c h in
    granted_all ms (move m c) k.0 ∙ omega (arith, k.1, enters_cons m ms)

-- Of the calls of one request, in any interleaving with the calls that are refused, that wait,
-- start and end, exactly the first max_total are granted, or all where max_total is 0: a refused
-- call that takes its count back costs no other call its place. For fewer than 2^32 calls.
pub granted-moves :
    (limit : BindingLimit) (name : String) (ms : List Move)
    → enters_in ms < 2 ^ 32
    → (moves ms (fresh_calls (new limit name))).granted
      ≡ (if ltb 0 limit.max_total then min (enters_in ms) limit.max_total else enters_in ms)
unfolding new
granted-moves limit name ms w = elim (Bool-cases (ltb 0 limit.max_total)) [
  | inl limited ↦ rw limited (
      granted_by limit.max_total ms (fresh_calls (new limit name)) (ground arith) (omega (arith, w))
        (refl, omega arith, omega arith, inl refl)
      ∙ omega arith)
  | inr free ↦ rw free (granted_all ms (fresh_calls (new limit name)) (ground arith) ∙ omega arith)
]

-- The free slots and the guards make up the semaphore.
abbrev pub Slots : ℕ → Calls → Type 0
Slots all c = (free : ℕ) × (c.limiter.semaphore ≡ some free) × (free + c.holding ≡ all)

move-Slots : (m : Move) (all : ℕ) (c : Calls) → Slots all c → Slots all (move m c)
unfolding move count_call undo
move-Slots enters all c (free, e, n) = (free, ground arith, ground arith)
move-Slots undoes all c (free, e, n) = (free, ground arith, ground arith)
move-Slots starts all c (free, e, n) =
    (get_or (move starts c).limiter.semaphore 0, ground arith, ground arith)
move-Slots releases all c (free, e, n) =
    (get_or (move releases c).limiter.semaphore 0, ground arith, ground arith)

moves-Slots : (ms : List Move) (all : ℕ) (c : Calls) → Slots all c → Slots all (moves ms c)
unfolding moves
moves-Slots [] all c h = h
moves-Slots (m ∷ ms) all c h = moves-Slots ms all (move m c) (move-Slots m all c h)

-- Where max_concurrent is set, at most so many calls hold a guard at any time, and the free slots
-- of the semaphore are exactly the others.
pub holding-moves :
    (limit : BindingLimit) (name : String) (ms : List Move)
    → 0 < limit.max_concurrent
    → let c : Calls = moves ms (fresh_calls (new limit name)) in
      (c.holding ≤ limit.max_concurrent)
      × (c.limiter.semaphore ≡ some (limit.max_concurrent - c.holding))
unfolding new
holding-moves limit name ms b =
    let c : Calls = moves ms (fresh_calls (new limit name)) in
    let (free, e, n) =
      moves-Slots ms limit.max_concurrent (fresh_calls (new limit name))
        (limit.max_concurrent, ground arith, omega arith) in
    (omega (arith, n), e ∙ ap some (omega (arith, n)))
