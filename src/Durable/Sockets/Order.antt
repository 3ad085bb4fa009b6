-- ===== src/Durable/Sockets/Order.antt =====
-- The frames that the task of a socket in src/durable/sockets.rs moves, in both directions.
use mathlib.Core.Path.{subst}
use openworkers_runner.Common.{
  Bool, Bool-cases, List, Option, String, [], ap, false, get_or, if◌then◌else◌, inl, inr, ltb,
  nat_eq, nat_eqb, none, option_eq, refl, some, string_eq, true, ℕ, ◌%◌, ◌++◌, ◌+◌, ◌-◌, ◌^◌, ◌||◌,
  ◌∷◌, ◌≡◌, ◌⊎◌,
}
use openworkers_runner.Durable.Sockets.{
  Outgoing, binary_out, close, closes, object_ref_eq, text_out,
}
use openworkers_runner.Durable.Sockets.Task.{
  Effect, Event, Incoming, attached, binary_in, bytes_in, bytes_out, closed, deadline, delivers,
  ended, error_in, flush, forgets_socket, from_client, from_object, hold_frame, is_last,
  max_queued_bytes, pumps, run, slow_object, step, take_chars, take_frame, takes, text_in,
  to_client, waits,
}

-- A list follows another, item by item, up to an item that is the last of its kind; or it stops
-- earlier with one item of the task's own.
module _ {A : Type 0} (last own : A → Bool) where
  abbrev pub Follows : List A → List A → Type 0
  Follows [] fs = Unit
  Follows (m ∷ ms) [] = (own m ≡ true) × (ms ≡ [])
  Follows (m ∷ ms) (f ∷ fs) =
      ((m ≡ f) × (if last m then ms ≡ [] else Follows ms fs)) ⊎ ((own m ≡ true) × (ms ≡ []))

  pub own-Follows : (m : A) (fs : List A) → own m ≡ true → Follows (m ∷ []) fs
  own-Follows m [] h = (h, refl)
  own-Follows m (f ∷ fs) h = inr (h, refl)

-- What the client gets, and what the object hears.
abbrev pub client : List Effect → List Outgoing
client [] = []
client (forgets_socket ∷ effects) = client effects
client (to_client m ∷ effects) = m ∷ client effects
client (delivers _ ∷ effects) = client effects

abbrev pub heard : List Effect → List Incoming
heard [] = []
heard (forgets_socket ∷ effects) = heard effects
heard (to_client _ ∷ effects) = heard effects
heard (delivers incoming ∷ effects) = incoming ∷ heard effects

-- What came from the object.
abbrev pub frames : List Event → List Outgoing
frames [] = []
frames (attached _ ∷ events) = frames events
frames (deadline ∷ events) = frames events
frames (from_object none ∷ events) = frames events
frames (from_object (some m) ∷ events) = m ∷ frames events
frames (from_client _ _ ∷ events) = frames events
frames (takes _ ∷ events) = frames events

-- A channel that is closed gives nothing more: no frame after `none`.
abbrev pub silent : List Event → Bool
silent [] = true
silent (attached _ ∷ events) = silent events
silent (deadline ∷ events) = silent events
silent (from_object none ∷ events) = silent events
silent (from_object (some m) ∷ events) = false
silent (from_client _ _ ∷ events) = silent events
silent (takes _ ∷ events) = silent events

abbrev pub closes_for_good : List Event → Bool
closes_for_good [] = true
closes_for_good (attached _ ∷ events) = closes_for_good events
closes_for_good (deadline ∷ events) = closes_for_good events
closes_for_good (from_object none ∷ events) = silent events
closes_for_good (from_object (some m) ∷ events) = closes_for_good events
closes_for_good (from_client _ _ ∷ events) = closes_for_good events
closes_for_good (takes _ ∷ events) = closes_for_good events

-- What came from the client; a connection that is gone counts as closed with 1006.
abbrev pub came : List Event → List Incoming
came [] = []
came (attached _ ∷ events) = came events
came (deadline ∷ events) = came events
came (from_object _ ∷ events) = came events
came (from_client incoming _ ∷ events) = get_or incoming (closed 1006 "") ∷ came events
came (takes _ ∷ events) = came events

-- From the moment on when the client is there.
abbrev pub came_attached : List Event → List Incoming
came_attached [] = []
came_attached (attached true ∷ events) = came events
came_attached (attached false ∷ events) = came_attached events
came_attached (deadline ∷ events) = came_attached events
came_attached (from_object _ ∷ events) = came_attached events
came_attached (from_client _ _ ∷ events) = came_attached events
came_attached (takes _ ∷ events) = came_attached events

-- The closes of the runner itself.
abbrev pub own_close : Outgoing → Bool
own_close (text_out _) = false
own_close (binary_out _) = false
own_close (close code _) = nat_eqb code 1008 || nat_eqb code 1013

abbrev pub own_closed : Incoming → Bool
own_closed (text_in _) = false
own_closed (binary_in _) = false
own_closed (closed code _) = nat_eqb code 1008
own_closed (error_in _) = false

pub run_ended : (events : List Event) → run events ended ≡ (ended, [])
unfolding run step
run_ended [] = refl
run_ended (event ∷ events) = rw (run_ended events) refl

taken-Follows :
    (events : List Event) (unread : ℕ) (incoming : Incoming) (refused : Option String)
    → ((u : ℕ) → Follows closes own_close (client (run events (pumps u)).1) (frames events))
    → Follows closes own_close
        (client (
          (take_frame unread incoming refused).1
          ++ (run events (take_frame unread incoming refused).0).1))
        (frames events)
unfolding take_frame
taken-Follows events unread incoming (some reason) later =
    elim (Bool-cases (ltb max_queued_bytes (unread + bytes_in incoming % 2 ^ 32))) [
      | inl over ↦
          rw (over, run_ended events)
            (own-Follows closes own_close (close 1008 slow_object) (frames events) refl)
      | inr within ↦ elim (Bool-cases (is_last incoming)) [
        | inl ending ↦
            rw (within, ending, run_ended events)
              (own-Follows closes own_close (close 1013 (take_chars 120 reason)) (frames events)
                refl)
        | inr other ↦
            rw (within, other, run_ended events)
              (own-Follows closes own_close (close 1013 (take_chars 120 reason)) (frames events)
                refl)
      ]
    ]
taken-Follows events unread incoming none later =
    elim (Bool-cases (ltb max_queued_bytes (unread + bytes_in incoming % 2 ^ 32))) [
      | inl over ↦
          rw (over, run_ended events)
            (own-Follows closes own_close (close 1008 slow_object) (frames events) refl)
      | inr within ↦ elim (Bool-cases (is_last incoming)) [
        | inl ending ↦ rw (within, ending, run_ended events) tt
        | inr other ↦ rw (within, other) (later (unread + bytes_in incoming % 2 ^ 32))
      ]
    ]

pump-Follows :
    (events : List Event) (unread : ℕ)
    → Follows closes own_close (client (run events (pumps unread)).1) (frames events)
unfolding run step
pump-Follows [] unread = tt
pump-Follows (attached _ ∷ events) unread = pump-Follows events unread
pump-Follows (deadline ∷ events) unread = pump-Follows events unread
pump-Follows (takes n ∷ events) unread = pump-Follows events (unread - n)
pump-Follows (from_object none ∷ events) unread = rw (run_ended events) tt
pump-Follows (from_object (some m) ∷ events) unread = elim (Bool-cases (closes m)) [
  | inl closing ↦ rw (closing, run_ended events) (inl (refl, rw closing refl))
  | inr other ↦ rw other (inl (refl, rw other (pump-Follows events unread)))
]
pump-Follows (from_client incoming refused ∷ events) unread =
    taken-Follows events unread (get_or incoming (closed 1006 "")) refused (pump-Follows events)

flush-Follows :
    (events : List Event) (waiting : List Outgoing)
    → Follows closes own_close
        (client ((flush waiting).1 ++ (run events (flush waiting).0).1))
        (waiting ++ frames events)
unfolding flush
flush-Follows events [] = pump-Follows events 0
flush-Follows events (m ∷ waiting) = elim (Bool-cases (closes m)) [
  | inl closing ↦ rw (closing, run_ended events) (inl (refl, rw closing refl))
  | inr other ↦ rw other (inl (refl, rw other (flush-Follows events waiting)))
]

pub append_one :
    (ms : List Outgoing) (m : Outgoing) (fs : List Outgoing)
    → (ms ++ (m ∷ [])) ++ fs ≡ ms ++ (m ∷ fs)
append_one [] m fs = refl
append_one (x ∷ ms) m fs = ap (λ l. x ∷ l) (append_one ms m fs)

hold-Follows :
    (events : List Event) (waiting : List Outgoing) (b : ℕ) (m : Outgoing)
    → Follows closes own_close
        (client (run events (waits (waiting ++ (m ∷ [])) (b + bytes_out m) true)).1)
        (waiting ++ (m ∷ frames events))
    → Follows closes own_close
        (client ((hold_frame waiting b m).1 ++ (run events (hold_frame waiting b m).0).1))
        (waiting ++ (m ∷ frames events))
unfolding hold_frame
hold-Follows events waiting b m later = elim (Bool-cases (ltb max_queued_bytes (b + bytes_out m))) [
  | inl over ↦ rw (over, run_ended events) tt
  | inr within ↦ rw within later
]

pub wait-Follows :
    (events : List Event) (waiting : List Outgoing) (b : ℕ) (o : Bool)
    → (if o then closes_for_good events else silent events) ≡ true
    → Follows closes own_close
        (client (run events (waits waiting b o)).1)
        (waiting ++ frames events)
unfolding run step
wait-Follows [] waiting b o ok_ = tt
wait-Follows (attached true ∷ events) waiting b o ok_ = flush-Follows events waiting
wait-Follows (attached false ∷ events) waiting b o ok_ = rw (run_ended events) tt
wait-Follows (deadline ∷ events) waiting b o ok_ = rw (run_ended events) tt
wait-Follows (takes n ∷ events) waiting b true ok_ = wait-Follows events waiting b true ok_
wait-Follows (takes n ∷ events) waiting b false ok_ = wait-Follows events waiting b false ok_
wait-Follows (from_client _ _ ∷ events) waiting b true ok_ = wait-Follows events waiting b true ok_
wait-Follows (from_client _ _ ∷ events) waiting b false ok_ =
    wait-Follows events waiting b false ok_
wait-Follows (from_object none ∷ events) waiting b true ok_ =
    wait-Follows events waiting b false ok_
wait-Follows (from_object none ∷ events) waiting b false ok_ =
    wait-Follows events waiting b false ok_
wait-Follows (from_object (some m) ∷ events) waiting b false ok_ = absurd (cc)
wait-Follows (from_object (some m) ∷ events) waiting b true ok_ = hold-Follows events waiting b m (
    subst
      (λ l.
        Follows closes own_close
          (client (run events (waits (waiting ++ (m ∷ [])) (b + bytes_out m) true)).1) l)
      (append_one waiting m (frames events))
      (wait-Follows events (waiting ++ (m ∷ [])) (b + bytes_out m) true ok_))
