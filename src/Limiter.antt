-- ===== src/Limiter.antt =====
-- src/limiter.rs: the limits on the calls of a worker to its bindings. The tokio semaphore is the
-- number of its free slots: a task waits while there is none.
pub mod Budget
mod Tests
use openworkers_runner.Common.{
  List, Option, String, [], if◌then◌else◌, leb, ltb, nat_eq, none, option_eq, some, string_eq, suc,
  zero, ℕ, ◌%◌, ◌+◌, ◌-◌, ◌^◌, ◌∷◌,
}

pub data LimitError : Type 0 where
  total_exceeded : String → ℕ → ℕ → LimitError
  semaphore_closed : String → LimitError

-- openworkers_core::BindingLimit and RuntimeLimits, as they are read here.
pub record BindingLimit : Type 0 where
  pub max_total : ℕ
  pub max_concurrent : ℕ

pub record RuntimeLimits : Type 0 where
  pub fetch_limit : BindingLimit
  pub kv_limit : BindingLimit
  pub database_limit : BindingLimit
  pub storage_limit : BindingLimit

pub record BindingLimiter : Type 0 where
  pub semaphore : Option ℕ
  pub total_count : ℕ
  pub max_total : ℕ
  pub name : String

unfoldable pub new : BindingLimit → String → BindingLimiter
new limit name = record {
  semaphore = if ltb 0 limit.max_concurrent then some limit.max_concurrent else none;
  total_count = 0;
  max_total = limit.max_total;
  name = name;
}

unfoldable pub unlimited : String → BindingLimiter
unlimited name = record { semaphore = none; total_count = 0; max_total = 0; name = name }

-- `acquire` up to the semaphore: the call is counted and goes on, is not counted, or is over the
-- limit and takes its count back next.
pub data Counted : Type 0 where
  goes_on : Counted
  takes_back : LimitError → Counted

unfoldable pub count_call : BindingLimiter → Counted × BindingLimiter
count_call l =
    if ltb 0 l.max_total
    then (let current : ℕ = l.total_count in
        (
          (if leb l.max_total current
              then takes_back (total_exceeded l.name l.max_total ((current + 1) % 2 ^ 32))
              else goes_on),
          record l { total_count = (current + 1) % 2 ^ 32 },
        ))
    else (goes_on, l)

-- The `fetch_sub` of a u32.
unfoldable pub undo : BindingLimiter → BindingLimiter
undo l = record l { total_count = (l.total_count + 2 ^ 32 - 1) % 2 ^ 32 }

-- `acquire_owned`: none while the task waits. The semaphore is never closed.
abbrev pub take_slot : Option ℕ → Option (Option ℕ)
take_slot none = some none
take_slot (some zero) = none
take_slot (some (suc free)) = some (some free)

-- The drop of a guard.
abbrev pub give_back : Option ℕ → Option ℕ
give_back none = none
give_back (some free) = some (suc free)

unfoldable pub reset : BindingLimiter → BindingLimiter
reset l = record l { total_count = 0 }

pub record BindingLimiters : Type 0 where
  pub fetch : BindingLimiter
  pub kv : BindingLimiter
  pub database : BindingLimiter
  pub storage : BindingLimiter

unfoldable pub new_limiters : RuntimeLimits → BindingLimiters
unfolding new
new_limiters limits = record {
  fetch = new limits.fetch_limit "fetch";
  kv = new limits.kv_limit "kv";
  database = new limits.database_limit "database";
  storage = new limits.storage_limit "storage";
}

abbrev pub concurrent : BindingLimit → BindingLimit
concurrent limit = record { max_total = 0; max_concurrent = limit.max_concurrent }

unfoldable pub for_object : RuntimeLimits → BindingLimiters
unfolding new unlimited
for_object limits = record {
  fetch = unlimited "fetch";
  kv = new (concurrent limits.kv_limit) "kv";
  database = new (concurrent limits.database_limit) "database";
  storage = new (concurrent limits.storage_limit) "storage";
}

unfoldable pub reset_all : BindingLimiters → BindingLimiters
unfolding reset
reset_all l = record {
  fetch = reset l.fetch;
  kv = reset l.kv;
  database = reset l.database;
  storage = reset l.storage;
}

-- The calls of one request on one limiter: those that will take their count back, those that
-- wait for a slot, those that hold a guard, and how many were granted in all.
pub record Calls : Type 0 where
  pub limiter : BindingLimiter
  pub undoing : ℕ
  pub waiting : ℕ
  pub holding : ℕ
  pub granted : ℕ

pub data Move : Type 0 where
  enters undoes starts releases : Move

abbrev pub after_count : Counted × BindingLimiter → Calls → Calls
after_count (goes_on, l) c = record c {
  limiter = l;
  waiting = suc c.waiting;
  granted = suc c.granted;
}
after_count (takes_back _, l) c = record c { limiter = l; undoing = suc c.undoing }

abbrev pub start_call : Option (Option ℕ) → ℕ → Calls → Calls
start_call none waiting c = c
start_call (some slots) waiting c = record c {
  limiter = record c.limiter { semaphore = slots };
  waiting = waiting;
  holding = suc c.holding;
}

-- A move of one of the tasks; one that no task can make changes nothing.
unfoldable pub move : Move → Calls → Calls
unfolding count_call undo
move enters c = after_count (count_call c.limiter) c
move undoes c = elim c.undoing [
  | zero ↦ c
  | suc n ↦ record c { limiter = undo c.limiter; undoing = n }
]
move starts c = elim c.waiting [ zero ↦ c | suc n ↦ start_call (take_slot c.limiter.semaphore) n c ]
move releases c = elim c.holding [
  | zero ↦ c
  | suc n ↦ record c {
    limiter = record c.limiter { semaphore = give_back c.limiter.semaphore };
    holding = n;
  }
]

unfoldable pub moves : List Move → Calls → Calls
unfolding move
moves [] c = c
moves (m ∷ ms) c = moves ms (move m c)

abbrev pub fresh_calls : BindingLimiter → Calls
fresh_calls l = record { limiter = l; undoing = 0; waiting = 0; holding = 0; granted = 0 }

abbrev pub enters_in : List Move → ℕ
enters_in [] = 0
enters_in (enters ∷ ms) = suc (enters_in ms)
enters_in (undoes ∷ ms) = enters_in ms
enters_in (starts ∷ ms) = enters_in ms
enters_in (releases ∷ ms) = enters_in ms
