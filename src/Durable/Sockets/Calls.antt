-- ===== src/Durable/Sockets/Calls.antt =====
-- src/durable/sockets.rs: the operations on the table, in any order.
use openworkers_runner.Common.{
  Bool, List, Option, String, [], nat_eq, option_eq, string_eq, suc, ℕ, ◌∷◌,
}
use openworkers_runner.Durable.Sockets.{
  ObjectRef, Outgoing, State, accept, attach, close_namespace, close_object, forget, instance_ended,
  object_ref_eq, send, set_attachment,
}

-- What the operations, the registry and the tasks of the sockets do to the table, in any order.
-- `slot_back` is the drop of a slot, of a task or of another WebSocket of the runner.
pub data Call : Type 0 where
  accepts : ObjectRef → ℕ → List String → Bool → Call
  attaches : ObjectRef → ℕ → Bool → Call
  sends : ObjectRef → ℕ → Outgoing → Call
  sets_attachment : ObjectRef → ℕ → Option (List ℕ) → Call
  closes_object : ObjectRef → ℕ → String → Call
  closes_namespace : String → Call
  instance_ends : ObjectRef → Call
  forgets : ObjectRef → ℕ → Call
  slot_back : Call

unfoldable pub call : Call → State → State
unfolding accept attach send set_attachment close_object close_namespace instance_ended forget
call (accepts key socket tags hibernatable) s = (accept key socket tags hibernatable s).1
call (attaches key socket waits) s = (attach (λ _. waits) key socket s).1
call (sends key socket message) s = send key socket message s
call (sets_attachment key socket value) s = set_attachment key socket value s
call (closes_object key code reason) s = close_object key code reason s
call (closes_namespace namespace_id) s = close_namespace namespace_id s
call (instance_ends key) s = instance_ended key s
call (forgets key socket) s = forget key socket s
call slot_back s = record s { free_slots = suc s.free_slots }

unfoldable pub run_calls : List Call → State → State
unfolding call
run_calls [] s = s
run_calls (c ∷ cs) s = run_calls cs (call c s)

abbrev pub no_sockets : ℕ → State
no_sockets slots = record { sockets = []; free_slots = slots; sent = λ _. []; next = 0 }
