-- ===== src/Durable/Sockets/Task.antt =====
-- src/durable/sockets.rs: the task of one socket (`run`), as steps on what `select!` gives. The
-- wake of the object (`deliver`) is a parameter: each frame of the client comes with its answer.
use openworkers_runner.Common.{
  Bool, List, Option, String, [], false, get_or, if◌then◌else◌, ltb, nat_eq, none, option_eq, some,
  string_eq, suc, true, zero, ℕ, ◌%◌, ◌*◌, ◌++◌, ◌+◌, ◌-◌, ◌^◌, ◌∷◌,
}
use openworkers_runner.Common.Lists.{length}
use openworkers_runner.Durable.Sockets.{
  Outgoing, binary_out, close, closes, object_ref_eq, text_out,
}

-- crate::websocket::MAX_QUEUED_BYTES
abbrev pub max_queued_bytes : ℕ
max_queued_bytes = 8 * 2 ^ 20

pub data Incoming : Type 0 where
  text_in : List ℕ → Incoming
  binary_in : List ℕ → Incoming
  closed : ℕ → String → Incoming
  error_in : String → Incoming

abbrev pub bytes_out : Outgoing → ℕ
bytes_out (text_out text) = length text
bytes_out (binary_out bytes) = length bytes
bytes_out (close _ _) = 0

abbrev pub bytes_in : Incoming → ℕ
bytes_in (text_in text) = length text
bytes_in (binary_in bytes) = length bytes
bytes_in (closed _ _) = 0
bytes_in (error_in _) = 0

abbrev pub is_last : Incoming → Bool
is_last (text_in _) = false
is_last (binary_in _) = false
is_last (closed _ _) = true
is_last (error_in _) = true

-- Before the client comes: the frames, their bytes, and whether the channel is still open. Then
-- the bytes that the object did not take yet: the permits of the semaphore that are out.
pub data Task : Type 0 where
  waits : List Outgoing → ℕ → Bool → Task
  pumps : ℕ → Task
  ended : Task

-- `attached`: the client came, or its response is lost. `takes`: the object took such messages.
pub data Event : Type 0 where
  attached : Bool → Event
  deadline : Event
  from_object : Option Outgoing → Event
  from_client : Option Incoming → Option String → Event
  takes : ℕ → Event

pub data Effect : Type 0 where
  forgets_socket : Effect
  to_client : Outgoing → Effect
  delivers : Incoming → Effect

abbrev pub slow_client : Incoming
slow_client = closed 1008 "The client does not read fast enough"

abbrev pub slow_object : String
slow_object = "The object does not take the messages fast enough"

-- The frames that waited, up to a close.
unfoldable pub flush : List Outgoing → Task × List Effect
flush [] = (pumps 0, [])
flush (m ∷ waiting) =
    let rest : Task × List Effect = flush waiting in
    if closes m then (ended, to_client m ∷ forgets_socket ∷ []) else (rest.0, to_client m ∷ rest.1)

unfoldable pub hold_frame : List Outgoing → ℕ → Outgoing → Task × List Effect
hold_frame waiting waiting_bytes m =
    if ltb max_queued_bytes (waiting_bytes + bytes_out m)
    then (ended, forgets_socket ∷ delivers slow_client ∷ [])
    else (waits (waiting ++ (m ∷ [])) (waiting_bytes + bytes_out m) true, [])

abbrev pub take_chars : ℕ → String → String
take_chars zero text = String.[]
take_chars (suc n) String.[] = String.[]
take_chars (suc n) (String.◌∷◌ c text) = String.◌∷◌ c (take_chars n text)

abbrev pub after_deliver : Option String → Incoming → ℕ → Task × List Effect
after_deliver (some reason) incoming unread =
    (ended, to_client (close 1013 (take_chars 120 reason)) ∷ forgets_socket ∷ [])
after_deliver none incoming unread =
    if is_last incoming then (ended, forgets_socket ∷ []) else (pumps unread, [])

-- The permits are a u32 of the bytes.
unfoldable pub take_frame : ℕ → Incoming → Option String → Task × List Effect
take_frame unread incoming refused =
    let permits : ℕ = bytes_in incoming % 2 ^ 32 in
    let next : Task × List Effect = after_deliver refused incoming (unread + permits) in
    if ltb max_queued_bytes (unread + permits)
    then (
      ended,
      forgets_socket
          ∷ to_client (close 1008 slow_object)
          ∷ delivers (closed 1008 slow_object)
          ∷ forgets_socket
          ∷ [],
    )
    else (
      next.0,
      (if is_last incoming then forgets_socket ∷ delivers incoming ∷ [] else delivers incoming ∷ [])
          ++ next.1,
    )

-- Events that `select!` does not wait for change nothing.
unfoldable pub step : Event → Task → Task × List Effect
unfolding flush hold_frame take_frame
step (attached true) (waits waiting b o) = flush waiting
step (attached false) (waits waiting b o) = (ended, forgets_socket ∷ [])
step deadline (waits waiting b o) = (ended, forgets_socket ∷ [])
step (from_object none) (waits waiting b o) = (waits waiting b false, [])
step (from_object (some m)) (waits waiting b true) = hold_frame waiting b m
step (from_object (some m)) (waits waiting b false) = (waits waiting b false, [])
step (from_client incoming refused) (waits waiting b o) = (waits waiting b o, [])
step (takes n) (waits waiting b o) = (waits waiting b o, [])
step (from_object none) (pumps unread) = (ended, forgets_socket ∷ [])
step (from_object (some m)) (pumps unread) =
    if closes m
    then (ended, to_client m ∷ forgets_socket ∷ [])
    else (pumps unread, to_client m ∷ [])
step (from_client incoming refused) (pumps unread) =
    take_frame unread (get_or incoming (closed 1006 "")) refused
step (takes n) (pumps unread) = (pumps (unread - n), [])
step (attached _) (pumps unread) = (pumps unread, [])
step deadline (pumps unread) = (pumps unread, [])
step event ended = (ended, [])

-- The task at the end of such events, and what it did in order.
unfoldable pub run : List Event → Task → Task × List Effect
unfolding step
run [] task = (task, [])
run (event ∷ events) task =
    let next : Task × List Effect = step event task in
    let rest : Task × List Effect = run events next.0 in (rest.0, next.1 ++ rest.1)

abbrev pub spawned : Task
spawned = waits [] 0 true
