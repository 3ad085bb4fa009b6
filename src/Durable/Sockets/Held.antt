-- ===== src/Durable/Sockets/Held.antt =====
-- The bytes that the task of a socket in src/durable/sockets.rs holds.
use openworkers_runner.Common.{
  Bool-cases, List, Option, String, [], arith, false, get_or, inl, inr, ltb, nat_eq, none,
  option_eq, refl, some, string_eq, true, ℕ, ◌%◌, ◌*◌, ◌++◌, ◌+◌, ◌^◌, ◌∷◌, ◌≡◌, ◌≤◌,
}
use openworkers_runner.Durable.Sockets.{Outgoing, closes, object_ref_eq}
use openworkers_runner.Durable.Sockets.Task.{
  Event, Incoming, Task, after_deliver, attached, bytes_in, bytes_out, closed, deadline, ended,
  flush, from_client, from_object, hold_frame, is_last, max_queued_bytes, pumps, run, spawned, step,
  take_frame, takes, waits,
}

abbrev pub bytes_of : List Outgoing → ℕ
bytes_of [] = 0
bytes_of (m ∷ ms) = bytes_out m + bytes_of ms

-- The bytes of the frames that wait for the client, or the permits of the messages that the object
-- did not take.
abbrev pub HoldsLittle : Task → Type 0
HoldsLittle (waits waiting b o) = (b ≡ bytes_of waiting) × (b ≤ 8 * 2 ^ 20)
HoldsLittle (pumps unread) = unread ≤ 8 * 2 ^ 20
HoldsLittle ended = Unit

bytes_of-append :
    (ms : List Outgoing) (m : Outgoing) → bytes_of (ms ++ (m ∷ [])) ≡ bytes_of ms + bytes_out m
bytes_of-append [] m = omega arith
bytes_of-append (x ∷ ms) m = omega (arith, bytes_of-append ms m)

flush-HoldsLittle : (waiting : List Outgoing) → HoldsLittle (flush waiting).0
unfolding flush
flush-HoldsLittle [] = omega arith
flush-HoldsLittle (m ∷ waiting) = elim (Bool-cases (closes m)) [
  | inl closing ↦ rw closing tt
  | inr other ↦ rw other (flush-HoldsLittle waiting)
]

after_deliver-HoldsLittle :
    (refused : Option String) (incoming : Incoming) (unread : ℕ)
    → unread ≤ 8 * 2 ^ 20
    → HoldsLittle (after_deliver refused incoming unread).0
after_deliver-HoldsLittle (some reason) incoming unread h = tt
after_deliver-HoldsLittle none incoming unread h = elim (Bool-cases (is_last incoming)) [
  | inl ending ↦ rw ending tt
  | inr other ↦ rw other h
]

taken-HoldsLittle :
    (unread : ℕ) (incoming : Incoming) (refused : Option String)
    → HoldsLittle (take_frame unread incoming refused).0
unfolding take_frame
taken-HoldsLittle unread incoming refused =
    elim (Bool-cases (ltb max_queued_bytes (unread + bytes_in incoming % 2 ^ 32))) [
      | inl over ↦ rw over tt
      | inr within ↦ rw within (
          after_deliver-HoldsLittle refused incoming (unread + bytes_in incoming % 2 ^ 32)
            (ground arith))
    ]

step-HoldsLittle :
    (event : Event) (task : Task) → HoldsLittle task → HoldsLittle (step event task).0
unfolding step hold_frame
step-HoldsLittle (attached true) (waits w b o) h = flush-HoldsLittle w
step-HoldsLittle (attached false) (waits w b o) h = tt
step-HoldsLittle deadline (waits w b o) h = tt
step-HoldsLittle (from_object none) (waits w b o) h = h
step-HoldsLittle (from_object (some m)) (waits w b true) h =
    elim (Bool-cases (ltb max_queued_bytes (b + bytes_out m))) [
      | inl over ↦ rw over tt
      | inr within ↦ rw within (omega (arith, bytes_of-append w m, h.0), ground arith)
    ]
step-HoldsLittle (from_object (some m)) (waits w b false) h = h
step-HoldsLittle (from_client _ _) (waits w b o) h = h
step-HoldsLittle (takes _) (waits w b o) h = h
step-HoldsLittle (attached _) (pumps u) h = h
step-HoldsLittle deadline (pumps u) h = h
step-HoldsLittle (from_object none) (pumps u) h = tt
step-HoldsLittle (from_object (some m)) (pumps u) h = elim (Bool-cases (closes m)) [
  | inl closing ↦ rw closing tt
  | inr other ↦ rw other h
]
step-HoldsLittle (from_client incoming refused) (pumps u) h =
    taken-HoldsLittle u (get_or incoming (closed 1006 "")) refused
step-HoldsLittle (takes n) (pumps u) h = omega arith
step-HoldsLittle event ended h = tt

run-HoldsLittle :
    (events : List Event) (task : Task) → HoldsLittle task → HoldsLittle (run events task).0
unfolding run
run-HoldsLittle [] task h = h
run-HoldsLittle (event ∷ events) task h =
    run-HoldsLittle events (step event task).0 (step-HoldsLittle event task h)

-- Whatever happens to the task of a socket, the bytes that it holds for the client, which it counts
-- right, are at most 8 MiB, and so are the permits of the messages that the object did not take.
pub spawned-HoldsLittle : (events : List Event) → HoldsLittle (run events spawned).0
spawned-HoldsLittle events = run-HoldsLittle events spawned (refl, omega arith)
