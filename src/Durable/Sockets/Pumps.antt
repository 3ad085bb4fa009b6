-- ===== src/Durable/Sockets/Pumps.antt =====
-- The task of a socket in src/durable/sockets.rs: what it moved while it goes on, and how it ends.
use openworkers_runner.Common.{
  Bool, Bool-cases, List, Option, String, [], ap, arith, false, get_or, if◌then◌else◌, inl, inr,
  ltb, nat_eq, none, option_eq, refl, some, string_eq, true, ℕ, ◌%◌, ◌++◌, ◌+◌, ◌-◌, ◌^◌, ◌∙◌, ◌∷◌,
  ◌≡◌, ◌⊎◌,
}
use openworkers_runner.Durable.Sockets.{Outgoing, closes, object_ref_eq}
use openworkers_runner.Durable.Sockets.Task.{
  Event, Incoming, Task, attached, bytes_in, bytes_out, closed, deadline, ended, flush, from_client,
  from_object, hold_frame, is_last, max_queued_bytes, pumps, run, spawned, step, take_frame, takes,
  waits,
}
use openworkers_runner.Durable.Sockets.Order.{
  Follows, append_one, client, closes_for_good, frames, own_close, run_ended, silent, wait-Follows,
}

abbrev pub goes_on : Task → Bool
goes_on (waits _ _ _) = false
goes_on (pumps _) = true
goes_on ended = false

taken-all :
    (events : List Event) (unread : ℕ) (incoming : Incoming) (refused : Option String)
    → ((u : ℕ)
        → goes_on (run events (pumps u)).0 ≡ true
        → client (run events (pumps u)).1 ≡ frames events)
    → goes_on (run events (take_frame unread incoming refused).0).0 ≡ true
    → client (
        (take_frame unread incoming refused).1
        ++ (run events (take_frame unread incoming refused).0).1)
      ≡ frames events
unfolding take_frame
taken-all events unread incoming none later =
    elim (Bool-cases (ltb max_queued_bytes (unread + bytes_in incoming % 2 ^ 32))) [
      | inl over ↦ rw (over, run_ended events) (λ h. absurd (cc))
      | inr within ↦ elim (Bool-cases (is_last incoming)) [
        | inl ending ↦ rw (within, ending, run_ended events) (λ h. absurd (cc))
        | inr other ↦ rw (within, other) (later (unread + bytes_in incoming % 2 ^ 32))
      ]
    ]
taken-all events unread incoming (some reason) later =
    elim (Bool-cases (ltb max_queued_bytes (unread + bytes_in incoming % 2 ^ 32))) [
      | inl over ↦ rw (over, run_ended events) (λ h. absurd (cc))
      | inr within ↦ rw (within, run_ended events) (λ h. absurd (cc))
    ]

pump-all :
    (events : List Event) (unread : ℕ)
    → goes_on (run events (pumps unread)).0 ≡ true
    → client (run events (pumps unread)).1 ≡ frames events
unfolding run step
pump-all [] unread h = refl
pump-all (attached _ ∷ events) unread h = pump-all events unread h
pump-all (deadline ∷ events) unread h = pump-all events unread h
pump-all (takes n ∷ events) unread h = pump-all events (unread - n) h
pump-all (from_object none ∷ events) unread h =
    absurd (ground (arith, ap (λ r. goes_on r.0) (run_ended events)))
pump-all (from_object (some m) ∷ events) unread h = elim (Bool-cases (closes m)) [
  | inl closing ↦ absurd (ground (arith, ap (λ r. goes_on r.0) (run_ended events)))
  | inr other ↦ rw other (ap (λ l. m ∷ l) (pump-all events unread (rw other at h)))
]
pump-all (from_client incoming refused ∷ events) unread h =
    taken-all events unread (get_or incoming (closed 1006 "")) refused (pump-all events) h

flush-all :
    (events : List Event) (waiting : List Outgoing)
    → goes_on (run events (flush waiting).0).0 ≡ true
    → client ((flush waiting).1 ++ (run events (flush waiting).0).1) ≡ waiting ++ frames events
unfolding flush
flush-all events [] h = pump-all events 0 h
flush-all events (m ∷ waiting) h = elim (Bool-cases (closes m)) [
  | inl closing ↦ absurd (ground (arith, ap (λ r. goes_on r.0) (run_ended events), rw closing at h))
  | inr other ↦ rw other (ap (λ l. m ∷ l) (flush-all events waiting (rw other at h)))
]

hold-all :
    (events : List Event) (waiting : List Outgoing) (b : ℕ) (m : Outgoing)
    → (goes_on (run events (waits (waiting ++ (m ∷ [])) (b + bytes_out m) true)).0 ≡ true
        → client (run events (waits (waiting ++ (m ∷ [])) (b + bytes_out m) true)).1
          ≡ waiting ++ (m ∷ frames events))
    → goes_on (run events (hold_frame waiting b m).0).0 ≡ true
    → client ((hold_frame waiting b m).1 ++ (run events (hold_frame waiting b m).0).1)
      ≡ waiting ++ (m ∷ frames events)
unfolding hold_frame
hold-all events waiting b m later = elim (Bool-cases (ltb max_queued_bytes (b + bytes_out m))) [
  | inl over ↦ rw (over, run_ended events) (λ h. absurd (cc))
  | inr within ↦ rw within later
]

wait-all :
    (events : List Event) (waiting : List Outgoing) (b : ℕ) (o : Bool)
    → (if o then closes_for_good events else silent events) ≡ true
    → goes_on (run events (waits waiting b o)).0 ≡ true
    → client (run events (waits waiting b o)).1 ≡ waiting ++ frames events
unfolding run step
wait-all [] waiting b o good h = absurd (cc)
wait-all (attached true ∷ events) waiting b o good h = flush-all events waiting h
wait-all (attached false ∷ events) waiting b o good h =
    absurd (ground (arith, ap (λ r. goes_on r.0) (run_ended events)))
wait-all (deadline ∷ events) waiting b o good h =
    absurd (ground (arith, ap (λ r. goes_on r.0) (run_ended events)))
wait-all (takes n ∷ events) waiting b true good h = wait-all events waiting b true good h
wait-all (takes n ∷ events) waiting b false good h = wait-all events waiting b false good h
wait-all (from_client _ _ ∷ events) waiting b true good h = wait-all events waiting b true good h
wait-all (from_client _ _ ∷ events) waiting b false good h = wait-all events waiting b false good h
wait-all (from_object none ∷ events) waiting b true good h = wait-all events waiting b false good h
wait-all (from_object none ∷ events) waiting b false good h = wait-all events waiting b false good h
wait-all (from_object (some m) ∷ events) waiting b false good h = absurd (cc)
wait-all (from_object (some m) ∷ events) waiting b true good h =
    hold-all events waiting b m
      (λ alive.
        wait-all events (waiting ++ (m ∷ [])) (b + bytes_out m) true good alive
        ∙ append_one waiting m (frames events))
      h

-- Whatever happens to the task of a socket, in any order, the client gets the frames of the object
-- in their order, none twice and none left out, up to the close of the object, after which nothing
-- comes; or the runner stops earlier, and then its own close, 1008 or 1013, may be the last
-- message. While the task moves frames, the client got all that came from the object. The channel
-- from the object gives nothing more once it is closed.
pub client-Follows :
    (events : List Event)
    → closes_for_good events ≡ true
    → Follows closes own_close (client (run events spawned).1) (frames events)
      × ((client (run events spawned).1 ≡ frames events) ⊎ (goes_on (run events spawned).0 ≡ false))
client-Follows events good = (
  wait-Follows events [] 0 true good,
  elim (Bool-cases (goes_on (run events spawned).0)) [
    | inl going ↦ inl (wait-all events [] 0 true good going)
    | inr other ↦ inr other
  ],
)
