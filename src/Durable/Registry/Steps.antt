-- ===== src/Durable/Registry/Steps.antt =====
-- src/durable/mod.rs, `mod registry`: any history of the runner, as a list of its steps.
use mathlib.Core.Option
use openworkers_runner.Common.{List, Option, String, [], nat_eq, none, some, string_eq, ℕ, ◌∷◌}
use openworkers_runner.Common.Int.{int_eq, ℤ}
use openworkers_runner.Durable.Registry.{Event, NamespaceConfig, State, admit, key_eq}
use openworkers_runner.Durable.Registry.Serve.{
  begin_load, drop_running, leave, load_failed, loaded, take_event,
}
use openworkers_runner.Durable.Registry.Deploy.{retire, stop_namespace}

-- One step of a caller, of a task, or of the watch over versions and namespaces.
pub data Step : Type 0 where
  admits : NamespaceConfig → String → ℕ → Event → Step
  begins : ℕ → Step
  loads : ℕ → ℤ → Step
  fails takes leaves ends : ℕ → Step
  retires : String → ℤ → Step
  stops : String → Step

-- `none` is a panic.
unfoldable pub step : Step → State → Option State
step (admits namespace id depth event) s = some (admit namespace id depth event s).0
step (begins g) s = some (begin_load g s)
step (loads g version) s = some (loaded g version s)
step (fails g) s = some (load_failed g s)
step (takes g) s = some (take_event g s)
step (leaves g) s = some (leave g s).0
step (ends g) s = drop_running g s
step (retires worker_id version) s = Option.map (λ p. p.0) (retire worker_id version s)
step (stops namespace_id) s = some (stop_namespace namespace_id s).0

unfoldable pub run : List Step → State → Option State
run [] s = some s
run (c ∷ cs) s = elim (step c s) [ none ↦ none | some s' ↦ run cs s' ]
