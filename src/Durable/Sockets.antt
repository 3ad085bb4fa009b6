-- ===== src/Durable/Sockets.antt =====
-- src/durable/sockets.rs: the table of the WebSockets of Durable Objects. Each accept makes a new
-- channel to the task of the socket; `sent` is what was put into each channel so far. The sends to
-- a task that ended are lost, which the table does not see. Texts are their bytes.
pub mod Calls
pub mod Closes
pub mod Once
pub mod Room
pub mod Ended
pub mod Stops
pub mod Task
pub mod Order
pub mod Pumps
pub mod Hears
pub mod Held
mod Tests
use openworkers_runner.Common.{
  Bool, Comparable, List, Option, Result, String, [], arith, eq_iff, err, false, get_or,
  if◌then◌else◌, leb, nat_eq, nat_eqb, none, not, ok, option_eq, some, string_eq, suc, true, ℕ,
  ◌&&◌, ◌++◌, ◌-◌, ◌==◌, ◌↔◌, ◌∷◌, ◌≡◌,
}
use openworkers_runner.Common.Lists.{is_empty, length}
use openworkers_runner.Common.Maps.{Map, adjust, insert, lookup, remove, retain}

abbrev pub max_sockets_per_object : ℕ
max_sockets_per_object = 32_768

pub data Outgoing : Type 0 where
  text_out : List ℕ → Outgoing
  binary_out : List ℕ → Outgoing
  close : ℕ → String → Outgoing

abbrev pub closes : Outgoing → Bool
closes (text_out _) = false
closes (binary_out _) = false
closes (close _ _) = true

pub record ObjectRef : Type 0 where
  pub namespace_id : String
  pub object_id : String

unfoldable pub object_ref_eqb : ObjectRef → ObjectRef → Bool
object_ref_eqb a b = a.namespace_id == b.namespace_id && a.object_id == b.object_id

pub object_ref_eqb_iff : (a b : ObjectRef) → (object_ref_eqb a b ≡ true) ↔ (a ≡ b)
unfolding object_ref_eqb
object_ref_eqb_iff a b =
    ground (arith, eq_iff a.namespace_id b.namespace_id, eq_iff a.object_id b.object_id)

instance abbrev pub object_ref_eq : Comparable ObjectRef
object_ref_eq = record { same = object_ref_eqb; same_iff = object_ref_eqb_iff }

-- `attach`: the sender of the hand-over is still there.
pub record Socket : Type 0 where
  pub out : ℕ
  pub attach : Bool
  pub tags : List String
  pub attachment : Option (List ℕ)
  pub hibernatable : Bool

pub record State : Type 0 where
  pub sockets : Map ObjectRef (Map ℕ Socket)
  pub free_slots : ℕ
  pub sent : ℕ → List Outgoing
  pub next : ℕ

-- `UnboundedSender::send`.
abbrev pub send_to : ℕ → Outgoing → (ℕ → List Outgoing) → ℕ → List Outgoing
send_to channel message sent c = if c == channel then sent c ++ (message ∷ []) else sent c

pub data AcceptError : Type 0 where
  too_many_open : AcceptError
  object_full : AcceptError

-- `entry(key).or_default()`
abbrev pub sockets_of : ObjectRef → Map ObjectRef (Map ℕ Socket) → Map ℕ Socket
sockets_of key sockets = get_or (lookup key sockets) []

abbrev pub new_socket : ℕ → List String → Bool → Socket
new_socket out tags hibernatable = record {
  out = out;
  attach = true;
  tags = tags;
  attachment = none;
  hibernatable = hibernatable;
}

-- The task that is spawned holds the slot. An error gives the slot back, and leaves an entry of the
-- object that is empty if it had none.
unfoldable pub accept :
    ObjectRef → ℕ → List String → Bool → State → Result {0, 0} Unit AcceptError × State
accept key socket tags hibernatable s =
    let object : Map ℕ Socket = sockets_of key s.sockets in
    if nat_eqb s.free_slots 0
    then (err too_many_open, s)
    else if leb max_sockets_per_object (length object)
    then (err object_full, record s { sockets = insert key object s.sockets })
    else (
      ok tt,
      record s {
        sockets = insert key (insert socket (new_socket s.next tags hibernatable) object) s.sockets;
        free_slots = s.free_slots - 1;
        next = suc s.next;
      },
    )

-- `get_mut` of the object and a write of its sockets.
abbrev pub write_object :
    ObjectRef → (Map ℕ Socket → Map ℕ Socket) → Option (Map ℕ Socket) → State → State
write_object key f none s = s
write_object key f (some object) s = record s { sockets = insert key (f object) s.sockets }

abbrev pub with_object : ObjectRef → (Map ℕ Socket → Map ℕ Socket) → State → State
with_object key f s = write_object key f (lookup key s.sockets) s

abbrev pub socket_in : ℕ → Option (Map ℕ Socket) → Option Socket
socket_in socket none = none
socket_in socket (some object) = lookup socket object

abbrev pub find_socket : ObjectRef → ℕ → State → Option Socket
find_socket key socket s = socket_in socket (lookup key s.sockets)

-- The answer: whether the sender was there and the task still waits for it, `waits`.
abbrev pub hands_over : (ℕ → Bool) → Option Socket → Bool
hands_over waits none = false
hands_over waits (some held) = held.attach && waits held.out

unfoldable pub attach : (ℕ → Bool) → ObjectRef → ℕ → State → Bool × State
attach waits key socket s =
    let found : Option Socket = find_socket key socket s in
    (hands_over waits found, with_object key (adjust socket (λ o. record o { attach = false })) s)

abbrev pub send_if : Option Socket → Outgoing → (ℕ → List Outgoing) → ℕ → List Outgoing
send_if none message sent = sent
send_if (some held) message sent = send_to held.out message sent

abbrev pub send_in : ObjectRef → ℕ → Outgoing → Option (Map ℕ Socket) → State → State
send_in key socket message none s = s
send_in key socket message (some object) s = record s {
  sockets = insert key (if closes message then remove socket object else object) s.sockets;
  sent = send_if (lookup socket object) message s.sent;
}

unfoldable pub send : ObjectRef → ℕ → Outgoing → State → State
send key socket message s = send_in key socket message (lookup key s.sockets) s

unfoldable pub set_attachment : ObjectRef → ℕ → Option (List ℕ) → State → State
set_attachment key socket value =
    with_object key (adjust socket (λ o. record o { attachment = value }))

-- openworkers_core::ObjectSocket
pub record ObjectSocket : Type 0 where
  pub id : ℕ
  pub socket_tags : List String
  pub socket_attachment : Option (List ℕ)

unfoldable pub hibernating : Map ℕ Socket → List ObjectSocket
hibernating [] = []
hibernating ((id, o) ∷ object) =
    if o.hibernatable
    then record { id = id; socket_tags = o.tags; socket_attachment = o.attachment }
      ∷ hibernating object
    else hibernating object

abbrev pub hibernating_in : Option (Map ℕ Socket) → List ObjectSocket
unfolding hibernating
hibernating_in none = []
hibernating_in (some object) = hibernating object

unfoldable pub hibernatable_sockets : ObjectRef → State → List ObjectSocket
hibernatable_sockets key s = hibernating_in (lookup key s.sockets)

-- The `retain` of one object: each socket that `which` selects gets the close.
unfoldable pub close_sockets :
    (Socket → Bool)
    → Outgoing
    → Map ℕ Socket
    → (ℕ → List Outgoing)
    → Map ℕ Socket × (ℕ → List Outgoing)
close_sockets which message [] sent = ([], sent)
close_sockets which message ((id, o) ∷ object) sent =
    let closed = close_sockets which message object (send_to o.out message sent) in
    let left = close_sockets which message object sent in
    if which o then closed else ((id, o) ∷ left.0, left.1)

unfoldable pub close_objects :
    (ObjectRef → Socket → Bool)
    → Outgoing
    → Map ObjectRef (Map ℕ Socket)
    → (ℕ → List Outgoing)
    → Map ObjectRef (Map ℕ Socket) × (ℕ → List Outgoing)
unfolding close_sockets
close_objects which message [] sent = ([], sent)
close_objects which message ((key, object) ∷ sockets) sent =
    let closed = close_sockets (which key) message object sent in
    let rest = close_objects which message sockets closed.1 in ((key, closed.0) ∷ rest.0, rest.1)

unfoldable pub close_where : (ObjectRef → Socket → Bool) → ℕ → String → State → State
unfolding close_objects
close_where which code reason s =
    let closed = close_objects which (close code reason) s.sockets s.sent in
    record s { sockets = retain (λ _ object. not (is_empty object)) closed.0; sent = closed.1 }

unfoldable pub close_object : ObjectRef → ℕ → String → State → State
unfolding close_where
close_object target code reason = close_where (λ key _. key == target) code reason

unfoldable pub close_namespace : String → State → State
unfolding close_where
close_namespace namespace_id =
    close_where (λ key _. key.namespace_id == namespace_id) 1001
      "the Durable Object namespace was deleted"

unfoldable pub instance_ended : ObjectRef → State → State
unfolding close_where
instance_ended target =
    close_where (λ key o. key == target && not o.hibernatable) 1011 "the Durable Object stopped"

abbrev pub forget_in : ObjectRef → ℕ → Option (Map ℕ Socket) → State → State
forget_in key socket none s = s
forget_in key socket (some object) s =
    if is_empty (remove socket object)
    then record s { sockets = remove key s.sockets }
    else record s { sockets = insert key (remove socket object) s.sockets }

unfoldable pub forget : ObjectRef → ℕ → State → State
forget key socket s = forget_in key socket (lookup key s.sockets) s
