-- ===== src/Durable/Registry/Deploy.antt =====
-- src/durable/mod.rs, `stop_namespace`, `retire` and `running_versions`: the objects of a deleted
-- namespace and of an old deployment stop.
use mathlib.Core.Option
use openworkers_runner.Common.{
  Bool, List, Option, String, [], false, if◌then◌else◌, is_some, nat_eq, none, not, some, string_eq,
  ◌&&◌, ◌==◌, ◌∷◌,
}
use openworkers_runner.Common.Int.{int_eq, ℤ}
use openworkers_runner.Common.Maps
use openworkers_runner.Common.Maps.{Map}
use openworkers_runner.Durable.Registry.{Entry, ObjectKey, Registry, State, key_eq}

-- `stop_namespace`: whether none of its objects runs any more.
unfoldable pub stop_namespace : String → State → State × Bool
stop_namespace namespace_id s = (
  record s {
    registry = record (s.registry) {
      stopped = namespace_id ∷ s.registry.stopped;
      objects = Maps.retain (λ key _. not (key.namespace == namespace_id)) s.registry.objects;
    };
  },
  not (is_some (Maps.lookup namespace_id s.registry.running)),
)

abbrev pub runs : String → ℤ → Entry → Bool
runs worker_id version entry =
    entry.worker_id == worker_id && elim entry.version [ none ↦ false | some v ↦ v == version ]

-- The keys that the filter of `retire` lists.
unfoldable pub old_keys : String → ℤ → Map ObjectKey Entry → List ObjectKey
old_keys worker_id version [] = []
old_keys worker_id version ((key, entry) ∷ objects) =
    if runs worker_id version entry
    then key ∷ old_keys worker_id version objects
    else old_keys worker_id version objects

-- The loop of `retire`; `none` is the panic of its `expect`.
unfoldable pub retire_keys : List ObjectKey → Registry → Option Registry
retire_keys [] r = some r
retire_keys (key ∷ keys) r = elim (Maps.lookup key r.objects) [
  | none ↦ none
  | some entry ↦ retire_keys keys (record r {
    objects = Maps.remove key r.objects;
    retiring = Maps.insert key entry.generation r.retiring;
  })
]

-- `retire`, with the objects whose sockets it closes.
unfoldable pub retire : String → ℤ → State → Option (State × List ObjectKey)
retire worker_id version s =
    let old = old_keys worker_id version s.registry.objects in
    Option.map (λ r. (record s { registry = r }, old)) (retire_keys old s.registry)

-- `running_versions`, as a list: the set forgets order and repetition.
unfoldable pub running_versions : Map ObjectKey Entry → List (String × ℤ)
running_versions [] = []
running_versions ((key, entry) ∷ objects) = elim entry.version [
  | none ↦ running_versions objects
  | some version ↦ (entry.worker_id, version) ∷ running_versions objects
]
