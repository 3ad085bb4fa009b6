-- ===== src/Durable/Registry/Counts.antt =====
-- src/durable/mod.rs: the counts of running tasks per namespace and per account.
use openworkers_runner.Common.{
  Bool, Bool-cases, Option-cases, String, arith, eq_iff, false, get_or, if◌then◌else◌, inl, inr,
  nat_eq, none, refl, some, string_eq, suc, zero, ℕ, ◌+◌, ◌-◌, ◌==◌, ◌∙◌, ◌≡◌, ◌≤◌, ◌⊎◌,
}
use openworkers_runner.Common.Maps
use openworkers_runner.Common.Maps.{Map}
use openworkers_runner.Common.Maps.Counting.{
  Unique-adjust, Unique-insert, Unique-remove, count, count-adjust, count-le_of_lookup,
  count-remove, indicator, remove_of_lookup,
}
use openworkers_runner.Common.Int.{int_eq}
use openworkers_runner.Durable.Registry.{
  Event, NamespaceConfig, ObjectKey, State, Task, increment, key_eq, new_task, release, start,
  too_many,
}
use openworkers_runner.Durable.Registry.Serve.{drop_running, is_waiting, unretire}
use openworkers_runner.Durable.Registry.Invariant.{IsCounted, counted, in_namespace, of_account}

pub get_or-counted : (c : ℕ) → get_or (counted c) 0 ≡ c
get_or-counted zero = refl
get_or-counted (suc c) = refl

counted-add_one : (c : ℕ) → counted (c + 1) ≡ some (c + 1)
counted-add_one c = let e : c + 1 ≡ suc c = omega arith in rw e

lookup-increment :
    (k j : String) (counts : Map String ℕ) (c : ℕ)
    → Maps.lookup k counts ≡ counted c
    → Maps.lookup j (increment k counts)
      ≡ (if k == j then counted (c + 1) else Maps.lookup j counts)
lookup-increment k j counts c h = ground (
  arith,
  Maps.lookup-insert k j (get_or (Maps.lookup k counts) 0 + 1) counts,
  get_or-counted c,
  counted-add_one c,
)

-- A counted task is released without a panic, and its count falls by one.
pub release_lem :
    (k : String) (counts : Map String ℕ) (c : ℕ)
    → Maps.lookup k counts ≡ counted (c + 1)
    → (counts' : Map String ℕ) × (release k counts ≡ some counts')
      × ((j : String)
          → Maps.lookup j counts' ≡ (if k == j then counted c else Maps.lookup j counts))
unfolding release
release_lem k counts zero h = (
  Maps.remove k counts,
  rw (h ∙ counted-add_one 0, release) refl,
  λ j. Maps.lookup-remove k j counts,
)
release_lem k counts (suc c) h = (
  Maps.insert k (suc c) counts,
  ground (arith, counted-add_one (suc c)),
  λ j. Maps.lookup-insert k j (suc c) counts,
)

-- A step that at most writes one task, and keeps its key and account, keeps the counts.
module _ (g : ℕ) (f : Task → Task) (key : (t : Task) → (f t).key ≡ t.key)
    (account : (t : Task) → (f t).account ≡ t.account) (s s' : State)
    (running : s'.registry.running ≡ s.registry.running)
    (accounts : s'.registry.accounts ≡ s.registry.accounts)
    (tasks : (s'.tasks ≡ s.tasks) ⊎ (s'.tasks ≡ Maps.adjust g f s.tasks)) where
  pub written-IsCounted : IsCounted s → IsCounted s'
  written-IsCounted v = record {
    unique = ground (arith, tasks, v.unique, Unique-adjust g f s.tasks v.unique);
    running = λ n. ground (
      arith,
      running,
      tasks,
      v.running n,
      count-adjust (in_namespace n) g f s.tasks (λ t. rw (key t)),
    );
    accounts = λ a. ground (
      arith,
      accounts,
      tasks,
      v.accounts a,
      count-adjust (of_account a) g f s.tasks (λ t. rw (account t)),
    );
    capped = λ a.
        ground
          (arith, tasks, v.capped a, count-adjust (of_account a) g f s.tasks (λ t. rw (account t)));
  }

count-insert :
    (p : Task → Bool) (g : ℕ) (t : Task) (tasks : Map ℕ Task)
    → Maps.lookup g tasks ≡ none
    → count p (Maps.insert g t tasks) ≡ count p tasks + indicator (p t)
unfolding Maps.insert count
count-insert p g t tasks h = rw (remove_of_lookup g tasks h) (omega arith)

module _ (namespace : NamespaceConfig) (key : ObjectKey) (depth : ℕ) (event : Event) (s : State)
    (unused : Maps.lookup s.generation s.tasks ≡ none) where
  started : Task
  started = new_task namespace key depth event (Maps.lookup key s.registry.retiring)

  pub start-IsCounted :
      too_many namespace s ≡ false → IsCounted s → IsCounted (start namespace key depth event s)
  unfolding start started
  start-IsCounted room v = record {
    unique = Unique-insert s.generation started s.tasks v.unique;
    running = λ n. ground (
      arith,
      count-insert (in_namespace n) s.generation started s.tasks unused,
      lookup-increment key.namespace n s.registry.running
          (count (in_namespace key.namespace) s.tasks) (v.running key.namespace),
      eq_iff key.namespace n,
      v.running n,
    );
    accounts = λ a. ground (
      arith,
      count-insert (of_account a) s.generation started s.tasks unused,
      lookup-increment namespace.user_id a s.registry.accounts
          (count (of_account namespace.user_id) s.tasks) (v.accounts namespace.user_id),
      eq_iff namespace.user_id a,
      v.accounts a,
    );
    capped = λ a. ground (
      arith,
      count-insert (of_account a) s.generation started s.tasks unused,
      get_or-counted (count (of_account a) s.tasks),
      eq_iff namespace.user_id a,
      v.accounts a,
      v.capped a,
    );
  }

pred_of_le : (n : ℕ) → 1 ≤ n → n ≡ (n - 1) + 1
pred_of_le n h = omega arith

-- A task that is past its wait drops its `Running` without a panic.
pub drop_running-total :
    (g : ℕ) (s : State)
    → IsCounted s
    → (s' : State) × (drop_running g s ≡ some s')
      × IsCounted s'
      × (s'.generation ≡ s.generation)
      × (s'.registry.objects ≡ s.registry.objects)
unfolding drop_running
drop_running-total g s v = elim (Option-cases (Maps.lookup g s.tasks)) [
  | inl gone ↦ (s, rw (gone, drop_running), v, refl, refl)
  | inr (t, found) ↦ elim (Bool-cases (is_waiting t.phase)) [
    | inl w ↦ (s, rw (found, drop_running) (rw w), v, refl, refl)
    | inr w ↦ ended t found w
  ]
]
  where
    ended :
        (t : Task)
        → Maps.lookup g s.tasks ≡ some t
        → is_waiting t.phase ≡ false
        → (s' : State) × (drop_running g s ≡ some s')
          × IsCounted s'
          × (s'.generation ≡ s.generation)
          × (s'.registry.objects ≡ s.registry.objects)
    ended t found w =
        let n : String = t.key.namespace in
        let a : String = t.account in
        let cn : ℕ = count (in_namespace n) s.tasks in
        let ca : ℕ = count (of_account a) s.tasks in
        let ln : 1 ≤ cn =
          ground (arith, count-le_of_lookup (in_namespace n) g t s.tasks found, eq_iff n n) in
        let la : 1 ≤ ca =
          ground (arith, count-le_of_lookup (of_account a) g t s.tasks found, eq_iff a a) in
        let (running, re, rl) =
          release_lem n s.registry.running (cn - 1) (rw (← pred_of_le cn ln) (v.running n)) in
        let (accounts, ae, al) =
          release_lem a s.registry.accounts (ca - 1) (rw (← pred_of_le ca la) (v.accounts a)) in
        (
          record s {
            registry = record (s.registry) {
              running = running;
              accounts = accounts;
              retiring = unretire g t.key s.registry.retiring;
            };
            tasks = Maps.remove g s.tasks;
          },
          rw (found, drop_running) (rw w (rw re (rw ae refl))),
          record {
            unique = Unique-remove g s.tasks v.unique;
            running = λ m. ground (
              arith,
              rl m,
              v.running m,
              eq_iff n m,
              count-remove (in_namespace m) g t s.tasks v.unique found,
            );
            accounts = λ m. ground (
              arith,
              al m,
              v.accounts m,
              eq_iff a m,
              count-remove (of_account m) g t s.tasks v.unique found,
            );
            capped = λ m.
                ground (arith, v.capped m, count-remove (of_account m) g t s.tasks v.unique found);
          },
          refl,
          refl,
        )
