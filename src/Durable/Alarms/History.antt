-- ===== src/Durable/Alarms/History.antt =====
-- src/durable/alarms.rs: any history of one object whose deliveries read the file and settle
-- with no setAlarm between the two.
use mathlib.Core.Option
use openworkers_runner.Common.{
  Bool, List, Option, [], if◌then◌else◌, nat_eq, none, some, string_eq, suc, zero, ℕ, ◌∷◌,
}
use openworkers_runner.Common.Int.{int_eq, pos, ℤ, ◌+ℤ◌}
use openworkers_runner.Durable.Alarms.Index.{claim, restart, settle}
use openworkers_runner.Durable.Alarms.Delivery.{
  Begin, Lookup, Object, Outcome, SetOutcome, begin, finish, found, put_row, runs, set, settles,
  unavailable,
}

-- The namespace is there, or cannot be looked up now.
pub data Known : Type 0 where
  cannot_say exists : Known

abbrev pub lookup_of : Known → Lookup
lookup_of cannot_say = unavailable
lookup_of exists = found

pub data Happens : Type 0 where
  sets : Option ℤ → SetOutcome → ℕ → Happens
  claims : Happens
  begins : Known → Bool → ℕ → Bool → Happens
  finishes : ℤ → ℕ → Outcome → Bool → Bool → Bool → Happens
  waits : ℕ → Happens
  restarts : Happens

-- The state after the first writes of a call; a crash leaves the rest out.
abbrev pub cut : ℕ → Object → List Object → Object
cut n o [] = o
cut zero o (x ∷ xs) = x
cut (suc n) o (x ∷ xs) = cut n x xs

-- The settle that `begin` decides, or none where the handler is to run.
abbrev pub settle_begin : Begin → Bool → Object → Object
settle_begin (runs at) settled o = o
settle_begin (settles alarm) settled o = if settled then put_row (settle alarm o.row) o else o

unfoldable pub happen : Happens → Object → Object
happen (sets at outcome n) o = cut n o (set at outcome o)
happen claims o = put_row (claim o.now o.row) o
happen (begins known reads retry_count settled) o =
    settle_begin (begin (lookup_of known) (if reads then some o.file else none) retry_count o.now)
      settled o
happen (finishes run retry_count outcome reads clears settled) o =
    finish run retry_count outcome reads clears settled o
happen (waits ms) o = record o { now = o.now +ℤ pos ms }
happen restarts o = put_row (restart o.row) o

unfoldable pub happens : List Happens → Object → Object
unfolding happen
happens [] o = o
happens (h ∷ hs) o = happens hs (happen h o)
