-- ===== src/Durable/Sockets/Tests.antt =====
-- src/durable/sockets.rs on concrete operations and events.
use openworkers_runner.Durable.Sockets.Calls.{
  Call, accepts, call, closes_namespace, instance_ends, no_sockets, run_calls, sends,
  sets_attachment,
}
use openworkers_runner.Common.{
  Bool, List, [], false, if◌then◌else◌, is_some, nat_eq, none, option_eq, refl, some, string_eq,
  true, ◌&&◌, ◌++◌, ◌+◌, ◌==◌, ◌∷◌, ◌≡◌, ◌≤◌, ◌⊎◌,
}
use openworkers_runner.Common.Maps.{adjust, insert, lookup, remove, retain}
use openworkers_runner.Durable.Sockets.{
  ObjectRef, Outgoing, Socket, State, accept, attach, close, close_namespace, close_object,
  close_objects, close_sockets, close_where, closes, find_socket, forget, hibernatable_sockets,
  instance_ended, new_socket, object_ref_eq, object_ref_eqb, send, set_attachment, text_out,
}
use openworkers_runner.Durable.Sockets.Task.{
  Event, attached, closed, delivers, ended, flush, forgets_socket, from_client, from_object,
  hold_frame, run, spawned, step, take_frame, text_in, to_client,
}
use openworkers_runner.Durable.Sockets.Closes.{closes_in, ends_closed, holders}
use openworkers_runner.Durable.Sockets.Once.{one_close}
use openworkers_runner.Durable.Sockets.Stops.{instance_ended_lem, stays}
use openworkers_runner.Durable.Sockets.Order.{Follows, client, own_close}
use openworkers_runner.Durable.Sockets.Pumps.{client-Follows, goes_on}
use openworkers_runner.Durable.Sockets.Held.{HoldsLittle, spawned-HoldsLittle}

abbrev room : ObjectRef
room = record { namespace_id = "ns"; object_id = "room" }

abbrev hall : ObjectRef
hall = record { namespace_id = "ns"; object_id = "hall" }

abbrev hello : Outgoing
hello = text_out (104 ∷ 105 ∷ [])

-- Two sockets of one object, one of them hibernatable, and one of another object, for three slots.
abbrev three_sockets : List Call
three_sockets =
    accepts room 1 [] true
    ∷ accepts room 2 ("tag" ∷ []) false
    ∷ accepts hall 3 [] false
    ∷ accepts hall 4 [] false
    ∷ sends room 1 hello
    ∷ sets_attachment room 1 (some (7 ∷ []))
    ∷ []

abbrev three : State
three = run_calls three_sockets (no_sockets 3)

-- How many sockets are found, and what the channels 0 to 2 got.
abbrev shown : State → List Bool × List (List Outgoing)
unfolding lookup
shown s = (
  is_some (find_socket room 1 s)
      ∷ is_some (find_socket room 2 s)
      ∷ is_some (find_socket hall 3 s)
      ∷ is_some (find_socket hall 4 s)
      ∷ [],
  s.sent 0 ∷ s.sent 1 ∷ s.sent 2 ∷ [],
)

abbrev replay : List Call → List Bool × List (List Outgoing)
unfolding shown run_calls call accept attach send set_attachment close_object close_namespace
    instance_ended forget close_where close_objects close_sockets lookup insert remove retain adjust
    object_ref_eqb
replay calls = shown (run_calls calls (no_sockets 3))

slots_run_out :
    replay three_sockets ≡ (true ∷ true ∷ true ∷ false ∷ [], (hello ∷ []) ∷ [] ∷ [] ∷ [])
unfolding replay
slots_run_out = refl

namespace_closes : replay (three_sockets ++ (closes_namespace "ns" ∷ sends room 1 hello ∷ [])) ≡ (
  false ∷ false ∷ false ∷ false ∷ [],
  (hello ∷ close 1001 "the Durable Object namespace was deleted" ∷ [])
      ∷ (close 1001 "the Durable Object namespace was deleted" ∷ [])
      ∷ (close 1001 "the Durable Object namespace was deleted" ∷ [])
      ∷ [],
)
unfolding replay
namespace_closes = refl

hibernates : replay (three_sockets ++ (instance_ends room ∷ [])) ≡ (
  true ∷ false ∷ true ∷ false ∷ [],
  (hello ∷ []) ∷ (close 1011 "the Durable Object stopped" ∷ []) ∷ [] ∷ [],
)
unfolding replay
hibernates = refl

one_close_example :
    (holders 0 three.sockets + closes_in (three.sent 0) ≤ 1) × (ends_closed (three.sent 0) ≡ true)
one_close_example = one_close 3 three_sockets 0

abbrev second : Socket
second = new_socket 1 ("tag" ∷ []) false

second_held : find_socket room 2 three ≡ some second
unfolding run_calls call accept send set_attachment lookup insert remove adjust object_ref_eqb
second_held = refl

instance_ended_lem_example :
    (find_socket room 2 (instance_ended room three) ≡ stays room room second)
    × ((instance_ended room three).sent 1 ≡ (
        if room == room && true
        then three.sent 1 ++ (close 1011 "the Durable Object stopped" ∷ [])
        else three.sent 1))
    × (hibernatable_sockets room (instance_ended room three) ≡ hibernatable_sockets room three)
instance_ended_lem_example = instance_ended_lem 3 three_sockets room room 2 second second_held

abbrev chat : List Event
chat =
    from_object (some hello)
    ∷ attached true
    ∷ from_client (some (text_in (104 ∷ []))) none
    ∷ from_object (some hello)
    ∷ from_client none none
    ∷ from_object none
    ∷ []

chat_runs : run chat spawned ≡ (
  ended,
  to_client hello
      ∷ delivers (text_in (104 ∷ []))
      ∷ to_client hello
      ∷ forgets_socket
      ∷ delivers (closed 1006 "")
      ∷ forgets_socket
      ∷ [],
)
unfolding run step flush hold_frame take_frame
chat_runs = refl

abbrev refused_chat : List Event
refused_chat = attached true ∷ from_client (some (text_in (104 ∷ []))) (some "no room") ∷ []

refused_runs :
    (run refused_chat spawned).1
    ≡ delivers (text_in (104 ∷ [])) ∷ to_client (close 1013 "no room") ∷ forgets_socket ∷ []
unfolding run step flush take_frame
refused_runs = refl

client-Follows_example :
    Follows closes own_close (client (run chat spawned).1) (hello ∷ hello ∷ [])
    × ((client (run chat spawned).1 ≡ hello ∷ hello ∷ []) ⊎ (goes_on (run chat spawned).0 ≡ false))
client-Follows_example = client-Follows chat refl

spawned-HoldsLittle_example : HoldsLittle (run chat spawned).0
spawned-HoldsLittle_example = spawned-HoldsLittle chat
