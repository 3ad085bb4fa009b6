-- ===== src/Durable/Registry/Retire.antt =====
-- src/durable/mod.rs, `retire`: which entries go, and what the loop leaves of the others.
use mathlib.Core.Option
use openworkers_runner.Common.{
  Bool-cases, List, Option, Option-cases, String, [], arith, false, if◌then◌else◌, inl, inr, nat_eq,
  none, refl, some, string_eq, ℕ, ◌==◌, ◌∷◌, ◌≡◌,
}
use openworkers_runner.Common.Lists.{contains}
use openworkers_runner.Common.Maps
use openworkers_runner.Common.Maps.{Map, Unique}
use openworkers_runner.Common.Maps.Counting.{Unique-remove, remove_of_lookup}
use openworkers_runner.Common.Int.{int_eq, ℤ}
use openworkers_runner.Durable.Registry.{Entry, ObjectKey, Registry, State, key_eq, key_eqb_iff}
use openworkers_runner.Durable.Registry.Deploy.{old_keys, retire, retire_keys, runs}

-- Each key stands in the map when the loop comes to it.
abbrev Listed : List ObjectKey → Map ObjectKey Entry → Type 0
Listed [] objects = Unit
Listed (key ∷ keys) objects =
    (e : Entry) × (Maps.lookup key objects ≡ some e) × Listed keys (Maps.remove key objects)

Listed-cons :
    (keys : List ObjectKey) (k : ObjectKey) (e : Entry) (objects : Map ObjectKey Entry)
    → Maps.lookup k objects ≡ none
    → Listed keys objects
    → Listed keys ((k, e) ∷ objects)
unfolding Maps.lookup Maps.remove
Listed-cons [] k e objects fresh l = tt
Listed-cons (key ∷ keys) k e objects fresh (e', found, l) =
    let other : (k == key) ≡ false = ground (arith, key_eqb_iff k key) in
    let rest : Listed keys ((k, e) ∷ Maps.remove key objects) =
      Listed-cons keys k e (Maps.remove key objects)
        (ground (arith, Maps.lookup-remove key k objects)) l in
    (e', rw other found, rw other rest)

module _ (worker_id : String) (version : ℤ) where
  old_keys-Listed :
      (objects : Map ObjectKey Entry)
      → Unique objects
      → Listed (old_keys worker_id version objects) objects
  unfolding old_keys Maps.lookup Maps.remove
  old_keys-Listed [] u = tt
  old_keys-Listed ((k, e) ∷ objects) (fresh, u) = elim (Bool-cases (runs worker_id version e)) [
    | inl old ↦
        let self = (key_eqb_iff k k).1 refl in
        rw (old, self, remove_of_lookup k objects fresh) (e, refl, old_keys-Listed objects u)
    | inr kept ↦ rw kept (Listed-cons _ k e objects fresh (old_keys-Listed objects u))
  ]

  contains-old_keys-none :
      (k : ObjectKey) (objects : Map ObjectKey Entry)
      → Maps.lookup k objects ≡ none
      → contains k (old_keys worker_id version objects) ≡ false
  unfolding old_keys Maps.lookup
  contains-old_keys-none k [] h = refl
  contains-old_keys-none k ((j, w) ∷ objects) h =
      ground (arith, key_eqb_iff j k, key_eqb_iff k j, contains-old_keys-none k objects)

  contains-old_keys :
      (k : ObjectKey) (e : Entry) (objects : Map ObjectKey Entry)
      → Unique objects
      → Maps.lookup k objects ≡ some e
      → contains k (old_keys worker_id version objects) ≡ runs worker_id version e
  unfolding old_keys Maps.lookup
  contains-old_keys k e [] u h = absurd (cc)
  contains-old_keys k e ((j, w) ∷ objects) u h = ground (
    arith,
    key_eqb_iff j k,
    key_eqb_iff k j,
    contains-old_keys k e objects u.1,
    contains-old_keys-none k objects,
  )

contains-Listed-none :
    (k : ObjectKey) (keys : List ObjectKey) (objects : Map ObjectKey Entry)
    → Listed keys objects
    → Maps.lookup k objects ≡ none
    → contains k keys ≡ false
contains-Listed-none k [] objects l h = refl
contains-Listed-none k (key ∷ keys) objects (e, found, l) h = ground (
  arith,
  key_eqb_iff k key,
  Maps.lookup-remove key k objects,
  contains-Listed-none k keys (Maps.remove key objects) l,
)

-- What the loop does to a registry: the listed entries go to `retiring`, the rest stays.
record Retires (keys : List ObjectKey) (r r' : Registry) : Type 0 where
  objects :
      (k : ObjectKey)
      → Maps.lookup k r'.objects ≡ (if contains k keys then none else Maps.lookup k r.objects)
  retiring :
      (k : ObjectKey)
      → Maps.lookup k r'.retiring ≡ (
          if contains k keys
          then Option.map (λ (e : Entry). e.generation) (Maps.lookup k r.objects)
          else Maps.lookup k r.retiring)
  running : r'.running ≡ r.running
  accounts : r'.accounts ≡ r.accounts
  stopped : r'.stopped ≡ r.stopped
  unique : Unique r.objects → Unique r'.objects

retire_one : ObjectKey → Entry → Registry → Registry
retire_one key e r = record r {
  objects = Maps.remove key r.objects;
  retiring = Maps.insert key e.generation r.retiring;
}

retire_keys-Retires :
    (keys : List ObjectKey) (r : Registry)
    → Listed keys r.objects
    → (r' : Registry) × (retire_keys keys r ≡ some r') × Retires keys r r'
unfolding retire_keys retire_one
retire_keys-Retires [] r l = (
  r,
  refl,
  record {
    objects = λ k. refl;
    retiring = λ k. refl;
    running = refl;
    accounts = refl;
    stopped = refl;
    unique = λ u. u;
  },
)
retire_keys-Retires (key ∷ keys) r (e, found, l) =
    let (r', done, v) = retire_keys-Retires keys (retire_one key e r) l in
    (
      r',
      rw (found, retire_keys) done,
      record {
        objects = λ k. ground (
          arith,
          v.objects k,
          key_eqb_iff k key,
          key_eqb_iff key k,
          Maps.lookup-remove key k r.objects,
        );
        retiring = λ k. ground (
          arith,
          v.retiring k,
          key_eqb_iff k key,
          key_eqb_iff key k,
          Maps.lookup-remove key k r.objects,
          Maps.lookup-insert key k e.generation r.retiring,
          contains-Listed-none key keys (Maps.remove key r.objects) l,
        );
        running = v.running;
        accounts = v.accounts;
        stopped = v.stopped;
        unique = λ u. v.unique (Unique-remove key r.objects u);
      },
    )

abbrev pub kept : String → ℤ → Option Entry → Option Entry
kept worker_id version none = none
kept worker_id version (some e) = if runs worker_id version e then none else some e

-- Where an entry goes that is retired: its generation takes the place in `retiring`.
abbrev pub moved : String → ℤ → Option Entry → Option ℕ → Option ℕ
moved worker_id version none before = before
moved worker_id version (some e) before =
    if runs worker_id version e then some e.generation else before

-- A retirement: exactly the entries that run the version leave `objects`, each for `retiring`.
pub record Retired (worker_id : String) (version : ℤ) (s s' : State) : Type 0 where
  pub objects :
      (k : ObjectKey)
      → Maps.lookup k s'.registry.objects
        ≡ kept worker_id version (Maps.lookup k s.registry.objects)
  pub retiring :
      (k : ObjectKey)
      → Maps.lookup k s'.registry.retiring
        ≡ moved worker_id version
            (Maps.lookup k s.registry.objects)
            (Maps.lookup k s.registry.retiring)
  pub running : s'.registry.running ≡ s.registry.running
  pub accounts : s'.registry.accounts ≡ s.registry.accounts
  pub stopped : s'.registry.stopped ≡ s.registry.stopped
  pub tasks : s'.tasks ≡ s.tasks
  pub generation : s'.generation ≡ s.generation
  pub unique : Unique s'.registry.objects

-- The loop of `retire` does not panic, and retires what it should.
pub retire-Retired :
    (worker_id : String) (version : ℤ) (s : State)
    → Unique s.registry.objects
    → (s' : State) × (retire worker_id version s
        ≡ some (s', old_keys worker_id version s.registry.objects))
      × Retired worker_id version s s'
unfolding retire
retire-Retired worker_id version s u =
    let old : List ObjectKey = old_keys worker_id version s.registry.objects in
    let (r, done, v) = retire_keys-Retires old s.registry (old_keys-Listed worker_id version _ u) in
    (
      record s { registry = r },
      rw done,
      record {
        objects = λ k. elim (Option-cases (Maps.lookup k s.registry.objects)) [
          | inl missing ↦ ground (arith, v.objects k)
          | inr (e, found) ↦
              ground
                (arith, v.objects k, contains-old_keys worker_id version k e s.registry.objects u)
        ];
        retiring = λ k. elim (Option-cases (Maps.lookup k s.registry.objects)) [
          | inl missing ↦
              ground
                (arith, v.retiring k, contains-old_keys-none worker_id version k s.registry.objects)
          | inr (e, found) ↦
              ground
                (arith, v.retiring k, contains-old_keys worker_id version k e s.registry.objects u)
        ];
        running = v.running;
        accounts = v.accounts;
        stopped = v.stopped;
        tasks = refl;
        generation = refl;
        unique = v.unique u;
      },
    )
