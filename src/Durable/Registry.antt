-- ===== src/Durable/Registry.antt =====
-- src/durable/mod.rs, `mod registry`: the objects this runner serves, and the tasks that serve
-- them. A start is named by its generation: so are its mailbox, its depths and its `done` channel.
pub mod Serve
pub mod Invariant
pub mod Exclusive
pub mod Ends
mod Tests
pub mod Mailbox
pub mod Quiet
pub mod Safety
pub mod Preserve
pub mod Steps
pub mod Fresh
pub mod Counts
pub mod Starts
pub mod Retire
pub mod Deploy
use mathlib.Core.Option
use openworkers_runner.Common.{
  Bool, Comparable, List, Option, Result, String, [], arith, eq_iff, err, false, get_or,
  if◌then◌else◌, leb, nat_eq, none, ok, some, string_eq, true, ℕ, ◌%◌, ◌&&◌, ◌++◌, ◌+◌, ◌-◌, ◌==◌,
  ◌^◌, ◌↔◌, ◌∷◌, ◌≡◌,
}
use openworkers_runner.Common.Int.{int_eq, ℤ}
use openworkers_runner.Common.Lists.{contains}
use openworkers_runner.Common.Maps
use openworkers_runner.Common.Maps.{Map}
use openworkers_runner.Durable.Depths.{CallDepths, enter}

-- The key of the ids of a namespace is no part of what the registry does.
pub record NamespaceConfig : Type 0 where
  pub id : String
  pub user_id : String
  pub worker_id : String
  pub class_name : String

pub record ObjectKey : Type 0 where
  pub namespace : String
  pub id : String

unfoldable pub key_eqb : ObjectKey → ObjectKey → Bool
key_eqb a b = a.namespace == b.namespace && a.id == b.id

pub key_eqb_iff : (a b : ObjectKey) → (key_eqb a b ≡ true) ↔ (a ≡ b)
unfolding key_eqb
key_eqb_iff a b = ground (arith, eq_iff a.namespace b.namespace, eq_iff a.id b.id)

instance abbrev pub key_eq : Comparable ObjectKey
key_eq = record { same = key_eqb; same_iff = key_eqb_iff }

pub data Event : Type 0 where
  fetch socket alarm : ℕ → Event

pub record Entry : Type 0 where
  pub generation : ℕ
  pub worker_id : String
  pub version : Option ℤ

pub record Registry : Type 0 where
  pub objects : Map ObjectKey Entry
  pub running : Map String ℕ
  pub accounts : Map String ℕ
  pub stopped : List String
  pub retiring : Map ObjectKey ℕ

-- Where the task of a start is: it waits for the end of an earlier task, loads its worker,
-- serves events, or has returned from `serve` and not yet dropped its `Running`.
pub data Phase : Type 0 where
  waiting : ℕ → Phase
  loading serving returned : Phase

pub record Task : Type 0 where
  pub key : ObjectKey
  pub account : String
  pub phase : Phase
  pub mailbox : List Event
  pub depths : CallDepths

-- The registry, the counter of generations, and the tasks whose `Running` is not dropped.
pub record State : Type 0 where
  pub registry : Registry
  pub generation : ℕ
  pub tasks : Map ℕ Task

unfoldable pub init : State
init = record {
  registry = record { objects = []; running = []; accounts = []; stopped = []; retiring = [] };
  generation = 0;
  tasks = [];
}

abbrev pub max_resident_per_account : ℕ
max_resident_per_account = 100

abbrev pub is_open : Phase → Bool
is_open returned = false
is_open _ = true

-- `mailbox.send`: the receiver is there until `serve` returns.
abbrev pub accepts : ℕ → Map ℕ Task → Bool
accepts g tasks = elim (Maps.lookup g tasks) [ none ↦ false | some t ↦ is_open t.phase ]

abbrev pub deliver : Event → ℕ → Task → Task
deliver event depth t = record t {
  mailbox = t.mailbox ++ event ∷ [];
  depths = enter depth t.depths;
}

abbrev pub set_phase : Phase → Task → Task
set_phase phase t = record t { phase = phase }

abbrev pub increment : String → Map String ℕ → Map String ℕ
increment k counts = Maps.insert k (get_or (Maps.lookup k counts) 0 + 1) counts

-- `release`; `none` is the panic of its `expect`.
pub release : String → Map String ℕ → Option (Map String ℕ)
release k counts = elim (Maps.lookup k counts) [
  | none ↦ none
  | some count ↦
      some (if count - 1 == 0 then Maps.remove k counts else Maps.insert k (count - 1) counts)
]

abbrev pub first_phase : Option ℕ → Phase
first_phase none = loading
first_phase (some g) = waiting g

abbrev pub new_entry : NamespaceConfig → ℕ → Entry
new_entry namespace generation = record {
  generation = generation;
  worker_id = namespace.worker_id;
  version = none;
}

abbrev pub new_task : NamespaceConfig → ObjectKey → ℕ → Event → Option ℕ → Task
new_task namespace key depth event previous = record {
  key = key;
  account = namespace.user_id;
  phase = first_phase previous;
  mailbox = event ∷ [];
  depths = enter depth [];
}

-- The part of `admit` that starts the object: a new entry and its task.
pub start : NamespaceConfig → ObjectKey → ℕ → Event → State → State
start namespace key depth event s =
    let r : Registry = s.registry in
    record {
      registry = record {
        objects = Maps.insert key (new_entry namespace s.generation) r.objects;
        running = increment key.namespace r.running;
        accounts = increment namespace.user_id r.accounts;
        stopped = r.stopped;
        retiring = Maps.remove key r.retiring;
      };
      generation = (s.generation + 1) % 2 ^ 64;
      tasks =
          Maps.insert s.generation (new_task namespace key depth event (Maps.lookup key r.retiring))
            s.tasks;
    }

abbrev pub too_many : NamespaceConfig → State → Bool
too_many namespace s =
    leb max_resident_per_account (get_or (Maps.lookup namespace.user_id s.registry.accounts) 0)

-- The rest of `admit` once no running task takes the event.
pub admit_new : NamespaceConfig → ObjectKey → ℕ → Event → State → State × Result ℕ String
unfolding start
admit_new namespace key depth event s =
    if too_many namespace s
    then (s, err "too many Durable Objects run for this account")
    else (start namespace key depth event s, ok s.generation)

-- `admit`: the result names the start whose depths the guard counts in.
pub admit : NamespaceConfig → String → ℕ → Event → State → State × Result ℕ String
unfolding admit_new
admit namespace id depth event s =
    let key : ObjectKey = record { namespace = namespace.id; id = id } in
    if contains key.namespace s.registry.stopped
    then (s, err "the Durable Object namespace was deleted")
    else elim (Maps.lookup key s.registry.objects) [
      | none ↦ admit_new namespace key depth event s
      | some entry ↦
          if accepts entry.generation s.tasks
          then (
            record s { tasks = Maps.adjust entry.generation (deliver event depth) s.tasks },
            ok entry.generation,
          )
          else admit_new namespace key depth event s
    ]
