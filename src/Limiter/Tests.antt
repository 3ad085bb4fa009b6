-- ===== src/Limiter/Tests.antt =====
-- The limiters of the tests of src/limiter.rs.
use openworkers_runner.Common.{
  List, [], arith, if◌then◌else◌, ltb, min, nat_eq, none, option_eq, refl, some, string_eq, ◌-◌,
  ◌∷◌, ◌≡◌, ◌≤◌,
}
use openworkers_runner.Limiter.{
  BindingLimit, BindingLimiters, Calls, Move, RuntimeLimits, count_call, enters, enters_in,
  for_object, fresh_calls, move, moves, new, releases, reset, reset_all, starts, takes_back,
  total_exceeded, undoes, unlimited,
}
use openworkers_runner.Limiter.Budget.{granted-moves, holding-moves}

abbrev two_calls : BindingLimit
two_calls = record { max_total = 2; max_concurrent = 1 }

-- Three calls enter, the last one over the limit, before any starts.
abbrev burst : List Move
burst = enters ∷ enters ∷ enters ∷ starts ∷ starts ∷ undoes ∷ releases ∷ starts ∷ enters ∷ []

third_call_is_refused :
    (count_call (moves (enters ∷ enters ∷ []) (fresh_calls (new two_calls "kv"))).limiter).0
    ≡ takes_back (total_exceeded "kv" 2 3)
unfolding moves move count_call new
third_call_is_refused = refl

objects_count_no_calls :
    (limits : RuntimeLimits)
    → ((for_object limits).kv.max_total ≡ 0) × ((for_object limits).fetch.semaphore ≡ none)
unfolding for_object new unlimited
objects_count_no_calls limits = (refl, refl)

resets_keep_slots : (l : BindingLimiters) → (reset_all l).kv ≡ record l.kv { total_count = 0 }
unfolding reset_all reset
resets_keep_slots l = refl

granted-moves_example :
    (moves burst (fresh_calls (new two_calls "kv"))).granted
    ≡ (if ltb 0 2 then min (enters_in burst) 2 else enters_in burst)
granted-moves_example = granted-moves two_calls "kv" burst (omega arith)

holding-moves_example :
    let c : Calls = moves burst (fresh_calls (new two_calls "kv")) in
    (c.holding ≤ 1) × (c.limiter.semaphore ≡ some (1 - c.holding))
holding-moves_example = holding-moves two_calls "kv" burst (omega arith)
