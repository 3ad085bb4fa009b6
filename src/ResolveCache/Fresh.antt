-- ===== src/ResolveCache/Fresh.antt =====
-- src/resolve_cache.rs: the lookups in flight and the holder of the lock, against the generation.
use openworkers_runner.Common.{
  Bool, Bool-cases, Option, Option-cases, String, arith, false, inl, inr, is_some, nat_eq, nat_eqb,
  none, option_eq, refl, some, string_eq, true, ℕ, ◌+◌, ◌≡◌, ◌≤◌,
}
use openworkers_runner.Common.Maps.{
  Map, adjust, insert, lookup-adjust, lookup-insert, lookup-remove, remove,
}
use openworkers_runner.Common.Maps
use openworkers_runner.ResolveCache.{Entry, Key, RequestResolution, WorkerMeta, key_eq}
use openworkers_runner.ResolveCache.Lru.{LruCache}
use openworkers_runner.ResolveCache.Lookups.{
  Database, Holder, Lookup, Request, State, begin, locked, still,
}

-- A lookup of this generation has read nothing older than the last increment.
abbrev pub LookupOk : ℕ → ℕ → Lookup → Type 0
LookupOk generation floor l =
    (g : ℕ)
    → l.generation ≡ some g
    → (g ≤ generation) × ((v : ℕ) → l.read ≡ some v → g ≡ generation → floor ≤ v)

abbrev pub LookupsOk : ℕ → ℕ → Map ℕ Lookup → Type 0
LookupsOk generation floor lookups =
    (id : ℕ) (l : Lookup) → Maps.lookup id lookups ≡ some l → LookupOk generation floor l

-- What a holder of the lock may store is not older than the last increment before a clear.
abbrev pub HolderOk : ℕ → Option Holder → Type 0
HolderOk cleared none = Unit
HolderOk cleared (some h) = h.allowed ≡ true → cleared ≤ h.version

pub begin-LookupOk :
    (generation floor : ℕ) (request : Request) (enabled : Bool)
    → LookupOk generation floor
        (record { request = request; generation = begin enabled generation; read = none })
unfolding begin
begin-LookupOk generation floor request enabled g e = (ground arith, λ v none_read. ground arith)

pub bump-LookupsOk :
    (generation floor version : ℕ) (lookups : Map ℕ Lookup)
    → LookupsOk generation floor lookups
    → LookupsOk (generation + 1) version lookups
bump-LookupsOk generation floor version lookups ok_before id l e g eg =
    let before : g ≤ generation = (ok_before id l e g eg).0 in
    (omega arith, λ v read same. omega arith)

pub insert-LookupsOk :
    (generation floor id : ℕ) (l : Lookup) (lookups : Map ℕ Lookup)
    → LookupOk generation floor l
    → LookupsOk generation floor lookups
    → LookupsOk generation floor (insert id l lookups)
insert-LookupsOk generation floor id l lookups one ok_before j m e =
    elim (Bool-cases (nat_eqb id j)) [
      | inl hit ↦ let same : m ≡ l = ground (arith, lookup-insert id j l lookups) in rw same one
      | inr miss ↦ ok_before j m (ground (arith, lookup-insert id j l lookups))
    ]

pub remove-LookupsOk :
    (generation floor id : ℕ) (lookups : Map ℕ Lookup)
    → LookupsOk generation floor lookups
    → LookupsOk generation floor (remove id lookups)
remove-LookupsOk generation floor id lookups ok_before j m e =
    ok_before j m (ground (arith, lookup-remove id j lookups))

pub read-LookupsOk :
    (generation floor version id : ℕ) (lookups : Map ℕ Lookup)
    → floor ≤ version
    → LookupsOk generation floor lookups
    → LookupsOk generation floor (adjust id (λ l. record l { read = some version }) lookups)
read-LookupsOk generation floor version id lookups b ok_before j m e =
    elim (Option-cases (Maps.lookup j lookups)) [
      | inl nothing ↦
          absurd
            (ground (arith, lookup-adjust id j (λ l. record l { read = some version }) lookups))
      | inr (l, e1) ↦ λ g eg.
          let was : l.generation ≡ some g =
            ground (arith, lookup-adjust id j (λ l. record l { read = some version }) lookups) in
          (
            (ok_before j l e1 g was).0,
            λ v read same. elim (Bool-cases (nat_eqb id j)) [
              | inl hit ↦
                  ground (arith, lookup-adjust id j (λ l. record l { read = some version }) lookups)
              | inr miss ↦
                  (ok_before j l e1 g was).1 v
                    (ground
                      (arith, lookup-adjust id j (λ l. record l { read = some version }) lookups))
                    same
            ],
          )
    ]

module _ (lru : LruCache Key (Entry (Option RequestResolution)))
    (worker_lru : LruCache String (Entry WorkerMeta)) (db : Database) where
  locked-HolderOk :
      (l : Lookup) (s : State lru worker_lru db)
      → s.cleared ≤ s.floor
      → LookupOk s.generation s.floor l
      → HolderOk s.cleared (locked lru worker_lru db (some l) s)
  unfolding still
  locked-HolderOk l s b one = elim (Option-cases l.read) [
    | inl unread ↦ rw unread tt
    | inr (v, read) ↦ rw read (λ allowed. elim (Option-cases l.generation) [
      | inl none_held ↦ absurd (ground arith)
      | inr (g, e) ↦
          let bound : s.floor ≤ v = (one g e).1 v read (ground arith) in omega (arith, b, bound)
    ])
  ]

  pub locked_lookup :
      (o : Option Lookup) (s : State lru worker_lru db)
      → s.cleared ≤ s.floor
      → ((l : Lookup) → o ≡ some l → LookupOk s.generation s.floor l)
      → HolderOk s.cleared (locked lru worker_lru db o s)
  locked_lookup none s b each_ok = tt
  locked_lookup (some l) s b each_ok = locked-HolderOk l s b (each_ok l refl)

pub free-HolderOk :
    (cleared : ℕ) (holder : Option Holder) → is_some holder ≡ false → HolderOk cleared holder
free-HolderOk cleared none free = tt
free-HolderOk cleared (some h) free = ground arith
