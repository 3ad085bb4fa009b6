-- ===== src/Durable/Sockets/Hears.antt =====
-- The task of a socket in src/durable/sockets.rs: what the object hears of the client, and how the
-- task ends.
use openworkers_runner.Common.{Bool, List, [], false, nat_eq, option_eq, string_eq, true, ◌∷◌}
use openworkers_runner.Durable.Sockets.{object_ref_eq}
use openworkers_runner.Durable.Sockets.Task.{
  Effect, Task, delivers, ended, forgets_socket, pumps, to_client, waits,
}

abbrev pub is_ended : Task → Bool
is_ended (waits _ _ _) = false
is_ended (pumps _) = false
is_ended ended = true

abbrev pub forgot : List Effect → Bool
forgot [] = false
forgot (forgets_socket ∷ effects) = true
forgot (to_client _ ∷ effects) = forgot effects
forgot (delivers _ ∷ effects) = forgot effects
