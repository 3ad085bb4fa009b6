-- ===== src/Durable/Registry/Invariant.antt =====
-- src/durable/mod.rs, `mod registry`: what holds of the registry between two steps.
use openworkers_runner.Common.{
  Bool, Option, String, arith, false, is_some, nat_eq, none, refl, some, string_eq, suc, true, zero,
  ℕ, ◌&&◌, ◌<◌, ◌==◌, ◌≡◌, ◌≤◌, ◌⊎◌,
}
use openworkers_runner.Common.Lists.{contains}
use openworkers_runner.Common.Maps
use openworkers_runner.Common.Maps.{Unique}
use openworkers_runner.Common.Maps.Counting.{count}
use openworkers_runner.Durable.Registry.{
  Entry, ObjectKey, State, Task, init, is_open, key_eq, max_resident_per_account, waiting,
}

-- The task serves or will serve the key: it has not returned from `serve`.
abbrev pub active : ObjectKey → Option Task → Bool
active k none = false
active k (some t) = t.key == k && is_open t.phase

abbrev pub waits : Option Task → Bool
waits none = false
waits (some t) = elim t.phase [ waiting _ ↦ true | _ ↦ false ]

abbrev pub waits_for : ℕ → Option Task → Bool
waits_for g none = false
waits_for g (some t) = elim t.phase [ waiting h ↦ h == g | _ ↦ false ]

-- A task, where there is one, is of the key.
abbrev pub owned : ObjectKey → Option Task → Bool
owned k none = true
owned k (some t) = t.key == k

abbrev pub in_namespace : String → Task → Bool
in_namespace namespace t = t.key.namespace == namespace

abbrev pub of_account : String → Task → Bool
of_account account t = t.account == account

-- A count as the maps of counts keep it: no entry stands for none.
abbrev pub counted : ℕ → Option ℕ
counted zero = none
counted (suc n) = some (suc n)

-- The maps of counts hold the number of tasks, and no account has too many.
pub record IsCounted (s : State) : Type 0 where
  pub unique : Unique s.tasks
  pub running :
      (n : String) → Maps.lookup n s.registry.running ≡ counted (count (in_namespace n) s.tasks)
  pub accounts :
      (a : String) → Maps.lookup a s.registry.accounts ≡ counted (count (of_account a) s.tasks)
  pub capped : (a : String) → count (of_account a) s.tasks ≤ max_resident_per_account

-- Generations are below the counter, and no key has two entries.
pub record IsFresh (s : State) : Type 0 where
  pub tasks : (g : ℕ) → is_some (Maps.lookup g s.tasks) ≡ true → g < s.generation
  pub entries :
      (k : ObjectKey) (e : Entry)
      → Maps.lookup k s.registry.objects ≡ some e
      → e.generation < s.generation
  pub unique : Unique s.registry.objects

-- Two open tasks of one key: the later waits for the earlier, which waits for none. The entry of
-- the key is that of the later; a key with no entry has at most a retiring task. A loaded entry's
-- task does not wait, and the task of an entry is of its key.
pub record IsExclusive (s : State) : Type 0 where
  pub ordered :
      (k : ObjectKey) (g h : ℕ)
      → active k (Maps.lookup g s.tasks) ≡ true
      → active k (Maps.lookup h s.tasks) ≡ true
      → g < h
      → (waits_for g (Maps.lookup h s.tasks) ≡ true) × (waits (Maps.lookup g s.tasks) ≡ false)
  pub entry :
      (k : ObjectKey) (e : Entry) (g : ℕ)
      → Maps.lookup k s.registry.objects ≡ some e
      → active k (Maps.lookup g s.tasks) ≡ true
      → (g ≡ e.generation) ⊎ (waits_for g (Maps.lookup e.generation s.tasks) ≡ true)
  pub orphan :
      (k : ObjectKey) (g : ℕ)
      → Maps.lookup k s.registry.objects ≡ none
      → contains k.namespace s.registry.stopped ≡ false
      → active k (Maps.lookup g s.tasks) ≡ true
      → (Maps.lookup k s.registry.retiring ≡ some g) × (waits (Maps.lookup g s.tasks) ≡ false)
  pub versioned :
      (k : ObjectKey) (e : Entry)
      → Maps.lookup k s.registry.objects ≡ some e
      → is_some e.version ≡ true
      → waits (Maps.lookup e.generation s.tasks) ≡ false
  pub owner :
      (k : ObjectKey) (e : Entry)
      → Maps.lookup k s.registry.objects ≡ some e
      → owned k (Maps.lookup e.generation s.tasks) ≡ true

pub record Inv (s : State) : Type 0 where
  pub counts : IsCounted s
  pub fresh : IsFresh s
  pub exclusive : IsExclusive s

pub init-Inv : Inv init
unfolding init count Maps.lookup
init-Inv = record {
  counts = record {
    unique = tt;
    running = λ n. refl;
    accounts = λ a. refl;
    capped = λ a. omega arith;
  };
  fresh = record { tasks = λ g h. absurd (cc); entries = λ k e h. absurd (cc); unique = tt };
  exclusive = record {
    ordered = λ k g h p q r. absurd (cc);
    entry = λ k e g h p. absurd (cc);
    orphan = λ k g h p q. absurd (cc);
    versioned = λ k e h p. absurd (cc);
    owner = λ k e h. absurd (cc);
  };
}
