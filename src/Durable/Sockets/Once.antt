-- ===== src/Durable/Sockets/Once.antt =====
-- The invariant of the channels of src/durable/sockets.rs, kept by each operation on the table.
use openworkers_runner.Common.{
  Bool, Bool-cases, List, Option-cases, String, [], arith, false, if◌then◌else◌, inl, inr, leb,
  nat_eq, nat_eqb, not, option_eq, refl, some, string_eq, suc, true, ℕ, ◌&&◌, ◌+◌, ◌-◌, ◌==◌, ◌∷◌,
  ◌≡◌, ◌≤◌,
}
use openworkers_runner.Common.Lists.{is_empty, length}
use openworkers_runner.Common.Maps.{Map, adjust, insert, lookup, remove}
use openworkers_runner.Common.Maps.Counting.{remove_of_lookup}
use openworkers_runner.Common.Maps.Weights.{
  weigh, weigh-insert, weigh-insert_le, weigh-lookup, weigh-remove, weigh-remove_le,
}
use openworkers_runner.Durable.Sockets.{
  ObjectRef, Outgoing, Socket, State, accept, attach, close_namespace, close_object, closes, forget,
  instance_ended, max_sockets_per_object, new_socket, object_ref_eq, send, send_to, set_attachment,
  sockets_of,
}
use openworkers_runner.Durable.Sockets.Calls.{
  Call, accepts, attaches, call, closes_namespace, closes_object, forgets, instance_ends,
  no_sockets, run_calls, sends, sets_attachment, slot_back,
}
use openworkers_runner.Durable.Sockets.Closes.{
  Inv, Kept, Kept-append, adjust_le, close_where-Inv, closes_in, ends_closed, fewer_holders,
  holders, holds, shrunk-Inv, with_object-Inv,
}

forget-Inv : (key : ObjectRef) (socket : ℕ) (s : State) → Inv s → Inv (forget key socket s)
unfolding forget
forget-Inv key socket s i = elim (Option-cases (lookup key s.sockets)) [
  | inl missing ↦ rw missing i
  | inr (object, found) ↦ elim (Bool-cases (is_empty (remove socket object))) [
    | inl alone ↦
        rw (found, alone)
          (shrunk-Inv s (remove key s.sockets)
            (λ c. weigh-remove_le (weigh (holds c)) key s.sockets) i)
    | inr others ↦
        rw (found, others)
          (shrunk-Inv s (insert key (remove socket object) s.sockets)
            (λ c. omega (
              arith,
              weigh-remove_le (holds c) socket object,
              weigh-insert (weigh (holds c)) key object (remove socket object) s.sockets found,
            ))
            i)
  ]
]

-- A write of the sockets of an object, of one without an entry too.
object_written :
    (c : ℕ) (key : ObjectRef) (object : Map ℕ Socket) (t : Map ObjectRef (Map ℕ Socket))
    → holders c (insert key object t) + weigh (holds c) (sockets_of key t)
      ≤ holders c t + weigh (holds c) object
unfolding weigh
object_written c key object t = elim (Option-cases (lookup key t)) [
  | inl missing ↦ rw missing (omega (arith, weigh-insert_le (weigh (holds c)) key object t))
  | inr (before, found) ↦ rw found (weigh-insert (weigh (holds c)) key before object t found)
]

left_weighs :
    (c : ℕ) (closing : Bool) (socket : ℕ) (object : Map ℕ Socket) (o : Socket)
    → lookup socket object ≡ some o
    → weigh (holds c) (if closing then remove socket object else object)
        + (if closing then holds c o else 0)
      ≤ weigh (holds c) object
left_weighs c true socket object o held = weigh-remove (holds c) socket o object held
left_weighs c false socket object o held = omega arith

-- A message to a socket that is there, which goes if the message closes it.
sent-Inv :
    (key : ObjectRef) (socket : ℕ) (m : Outgoing) (s : State) (object : Map ℕ Socket) (o : Socket)
    → lookup key s.sockets ≡ some object
    → lookup socket object ≡ some o
    → Inv s
    → Inv (record s {
      sockets = insert key (if closes m then remove socket object else object) s.sockets;
      sent = send_to o.out m s.sent;
    })
sent-Inv key socket m s object o found held i =
    let left : Map ℕ Socket = if closes m then remove socket object else object in
    let fewer = λ (c : ℕ). left_weighs c (closes m) socket object o held in
    let written = λ (c : ℕ). weigh-insert (weigh (holds c)) key object left s.sockets found in
    let there = λ (c : ℕ). weigh-lookup (holds c) socket o object held in
    let within = λ (c : ℕ). weigh-lookup (weigh (holds c)) key object s.sockets found in
    record {
      channels = λ c. elim (Bool-cases (c == o.out)) [
        | inl hit ↦ rw hit (
            Kept-append (holders c s.sockets) (holders c (insert key left s.sockets)) (s.sent c) m
              (ground (arith, there c, within c)) (ground (arith, fewer c, written c, there c))
              (i.channels c))
        | inr miss ↦ rw miss (
            fewer_holders (holders c s.sockets) (holders c (insert key left s.sockets)) (s.sent c)
              (ground (arith, fewer c, written c)) (i.channels c))
      ];
      unused = λ c le.
          let no_holder : holds c o ≡ 0 = omega (arith, there c, within c, (i.unused c le).0) in
          let other : (c == o.out) ≡ false = ground arith in
          (omega (arith, fewer c, written c, (i.unused c le).0), rw other (i.unused c le).1);
    }

first_holder : (n : ℕ) (ms : List Outgoing) → n ≤ 1 → ms ≡ [] → Kept n ms
unfolding closes_in ends_closed
first_holder n ms h e = record { once = rw e (omega arith); last = rw e refl }

accepted-Inv :
    (key : ObjectRef) (socket : ℕ) (o : Socket) (s : State)
    → o.out ≡ s.next
    → Inv s
    → Inv (record s {
      sockets = insert key (insert socket o (sockets_of key s.sockets)) s.sockets;
      free_slots = s.free_slots - 1;
      next = suc s.next;
    })
accepted-Inv key socket o s fresh i =
    let object = sockets_of key s.sockets in
    let t = insert key (insert socket o object) s.sockets in
    let more : (c : ℕ) → holders c t ≤ holders c s.sockets + holds c o = λ c. omega (
      arith,
      object_written c key (insert socket o object) s.sockets,
      weigh-insert_le (holds c) socket o object,
    ) in
    record {
      channels = λ c. elim (Bool-cases (leb s.next c)) [
        | inl new_one ↦
            first_holder (holders c t) (s.sent c)
              (ground (arith, more c, (i.unused c (ground arith)).0)) (i.unused c (ground arith)).1
        | inr old ↦
            fewer_holders (holders c s.sockets) (holders c t) (s.sent c) (ground (arith, more c))
              (i.channels c)
      ];
      unused = λ c le.
          (ground (arith, more c, (i.unused c (omega arith)).0), (i.unused c (omega arith)).1);
    }

accept-Inv :
    (key : ObjectRef) (socket : ℕ) (tags : List String) (hibernatable : Bool) (s : State)
    → Inv s
    → Inv (accept key socket tags hibernatable s).1
unfolding accept
accept-Inv key socket tags hibernatable s i = elim (Bool-cases (nat_eqb s.free_slots 0)) [
  | inl no_slot ↦ rw no_slot i
  | inr slot ↦ elim (Bool-cases (leb max_sockets_per_object (length (sockets_of key s.sockets)))) [
    | inl full ↦
        rw (slot, full)
          (shrunk-Inv s (insert key (sockets_of key s.sockets) s.sockets)
            (λ c. omega (arith, object_written c key (sockets_of key s.sockets) s.sockets)) i)
    | inr room ↦
        rw (slot, room) (accepted-Inv key socket (new_socket s.next tags hibernatable) s refl i)
  ]
]

send-Inv :
    (key : ObjectRef) (socket : ℕ) (m : Outgoing) (s : State) → Inv s → Inv (send key socket m s)
unfolding send
send-Inv key socket m s i = elim (Option-cases (lookup key s.sockets)) [
  | inl missing ↦ rw missing i
  | inr (object, found) ↦ elim (Option-cases (lookup socket object)) [
    | inr (o, held) ↦ rw (found, held) (sent-Inv key socket m s object o found held i)
    | inl absent ↦
        let same : (if closes m then remove socket object else object) ≡ object =
          ground (arith, remove_of_lookup socket object absent) in
        rw (found, absent, same)
          (shrunk-Inv s (insert key object s.sockets)
            (λ c. omega (arith, weigh-insert (weigh (holds c)) key object object s.sockets found))
            i)
  ]
]

call-Inv : (c : Call) (s : State) → Inv s → Inv (call c s)
unfolding call attach set_attachment close_object close_namespace instance_ended
call-Inv (accepts key socket tags hibernatable) s i = accept-Inv key socket tags hibernatable s i
call-Inv (attaches key socket waits) s i =
    with_object-Inv key (adjust socket (λ o. record o { attach = false })) s
      (λ c object. adjust_le socket (λ o. record o { attach = false }) c object (λ o. refl)) i
call-Inv (sends key socket message) s i = send-Inv key socket message s i
call-Inv (sets_attachment key socket value) s i =
    with_object-Inv key (adjust socket (λ o. record o { attachment = value })) s
      (λ c object. adjust_le socket (λ o. record o { attachment = value }) c object (λ o. refl)) i
call-Inv (closes_object key code reason) s i = close_where-Inv (λ k _. k == key) code reason s i
call-Inv (closes_namespace namespace_id) s i =
    close_where-Inv (λ k _. k.namespace_id == namespace_id) 1001
      "the Durable Object namespace was deleted" s i
call-Inv (instance_ends key) s i =
    close_where-Inv (λ k o. k == key && not o.hibernatable) 1011 "the Durable Object stopped" s i
call-Inv (forgets key socket) s i = forget-Inv key socket s i
call-Inv slot_back s i = record { channels = i.channels; unused = i.unused }

pub run_calls-Inv : (calls : List Call) (s : State) → Inv s → Inv (run_calls calls s)
unfolding run_calls
run_calls-Inv [] s i = i
run_calls-Inv (c ∷ calls) s i = run_calls-Inv calls (call c s) (call-Inv c s i)

pub no_sockets-Inv : (slots : ℕ) → Inv (no_sockets slots)
unfolding weigh closes_in ends_closed
no_sockets-Inv slots = record {
  channels = λ _. record { once = omega arith; last = refl };
  unused = λ _ _. (refl, refl);
}

-- After any operations on an empty table, in any order, a channel to a client is held by one socket
-- of the table or got one close, or neither, and nothing comes after its close: a client is closed
-- once at most, whether by the object, a new deployment, a deleted namespace or the end of the
-- instance, and a socket in the table is not closed.
pub one_close :
    (slots : ℕ) (calls : List Call) (c : ℕ)
    → (holders c (run_calls calls (no_sockets slots)).sockets
          + closes_in ((run_calls calls (no_sockets slots)).sent c)
        ≤ 1)
      × (ends_closed ((run_calls calls (no_sockets slots)).sent c) ≡ true)
one_close slots calls c =
    let kept = Inv.channels (run_calls-Inv calls (no_sockets slots) (no_sockets-Inv slots)) c in
    (kept.once, kept.last)
