-- ===== src/Durable/Sockets/Closes.antt =====
-- The closes of src/durable/sockets.rs: what goes into the channel of a socket over its life.
use openworkers_runner.Common.{
  Bool, Bool-cases, List, Option-cases, String, [], ap, arith, false, if◌then◌else◌, inl, inr,
  nat_eq, not, option_eq, refl, string_eq, true, ℕ, ◌++◌, ◌+◌, ◌==◌, ◌∙◌, ◌∷◌, ◌≡◌, ◌≤◌,
}
use openworkers_runner.Common.Lists.{is_empty}
use openworkers_runner.Common.Maps.{Map, adjust, insert, lookup, retain}
use openworkers_runner.Common.Maps.Counting.{indicator}
use openworkers_runner.Common.Maps.Weights.{weigh, weigh-adjust, weigh-insert, weigh-retain}
use openworkers_runner.Durable.Sockets.{
  ObjectRef, Outgoing, Socket, State, close, close_objects, close_sockets, close_where, closes,
  object_ref_eq, send_to, with_object,
}

-- How many sockets of the table send into a channel.
abbrev pub holds : ℕ → Socket → ℕ
holds c o = indicator (c == o.out)

abbrev pub holders : ℕ → Map ObjectRef (Map ℕ Socket) → ℕ
holders c = weigh (weigh (holds c))

unfoldable pub closes_in : List Outgoing → ℕ
closes_in [] = 0
closes_in (m ∷ ms) = indicator (closes m) + closes_in ms

-- Nothing comes after a close.
unfoldable pub ends_closed : List Outgoing → Bool
ends_closed [] = true
ends_closed (m ∷ ms) = if closes m then is_empty ms else ends_closed ms

pub closes_in-append :
    (ms : List Outgoing) (m : Outgoing)
    → closes_in (ms ++ (m ∷ [])) ≡ closes_in ms + indicator (closes m)
unfolding closes_in
closes_in-append [] m = omega arith
closes_in-append (x ∷ ms) m = omega (arith, closes_in-append ms m)

ends_closed-append :
    (ms : List Outgoing) (m : Outgoing) → closes_in ms ≡ 0 → ends_closed (ms ++ (m ∷ [])) ≡ true
unfolding closes_in ends_closed
ends_closed-append [] m h = ground arith
ends_closed-append (x ∷ ms) m h = ground (arith, ends_closed-append ms m)

-- A channel with so many holders: one of them, or one close.
pub record Kept (n : ℕ) (ms : List Outgoing) : Type 0 where
  pub once : n + closes_in ms ≤ 1
  pub last : ends_closed ms ≡ true

pub fewer_holders : (n k : ℕ) (ms : List Outgoing) → k ≤ n → Kept n ms → Kept k ms
fewer_holders n k ms h kept = record { once = omega (arith, kept.once); last = kept.last }

pub Kept-append :
    (n k : ℕ) (ms : List Outgoing) (m : Outgoing)
    → 1 ≤ n
    → k + indicator (closes m) ≤ n
    → Kept n ms
    → Kept k (ms ++ (m ∷ []))
Kept-append n k ms m h le kept = record {
  once = omega (arith, kept.once, closes_in-append ms m);
  last = ends_closed-append ms m (omega (arith, kept.once));
}

pub record Inv (s : State) : Type 0 where
  pub channels : (c : ℕ) → Kept (holders c s.sockets) (s.sent c)
  pub unused : (c : ℕ) → s.next ≤ c → (holders c s.sockets ≡ 0) × (s.sent c ≡ [])

-- A write of the table alone that adds no holder.
pub shrunk-Inv :
    (s : State) (t : Map ObjectRef (Map ℕ Socket))
    → ((c : ℕ) → holders c t ≤ holders c s.sockets)
    → Inv s
    → Inv (record s { sockets = t })
shrunk-Inv s t h i = record {
  channels = λ c. fewer_holders (holders c s.sockets) (holders c t) (s.sent c) (h c) (i.channels c);
  unused = λ c le. (omega (arith, h c, (i.unused c le).0), (i.unused c le).1);
}

pub with_object-Inv :
    (key : ObjectRef) (f : Map ℕ Socket → Map ℕ Socket) (s : State)
    → ((c : ℕ) (object : Map ℕ Socket) → weigh (holds c) (f object) ≤ weigh (holds c) object)
    → Inv s
    → Inv (with_object key f s)
with_object-Inv key f s h i = elim (Option-cases (lookup key s.sockets)) [
  | inl missing ↦ rw missing i
  | inr (object, found) ↦ rw found (
      shrunk-Inv s (insert key (f object) s.sockets)
        (λ c.
          omega (
            arith,
            h c object,
            weigh-insert (weigh (holds c)) key object (f object) s.sockets found,
          ))
        i)
]

pub adjust_le :
    (socket : ℕ) (g : Socket → Socket) (c : ℕ) (object : Map ℕ Socket)
    → ((o : Socket) → (g o).out ≡ o.out)
    → weigh (holds c) (adjust socket g object) ≤ weigh (holds c) object
adjust_le socket g c object h =
    omega (arith, weigh-adjust (holds c) socket g object (λ o. ap (λ n. indicator (c == n)) (h o)))

-- A socket that goes with a close into its channel.
closed_one :
    (c : ℕ) (o : Socket) (m : Outgoing) (k w : ℕ) (sent : ℕ → List Outgoing)
    → closes m ≡ true
    → Kept (k + (holds c o + w)) (sent c)
    → Kept (k + w) (send_to o.out m sent c)
closed_one c o m k w sent closing kept = elim (Bool-cases (c == o.out)) [
  | inl hit ↦
      rw hit
        (Kept-append (k + (holds c o + w)) (k + w) (sent c) m (ground arith) (ground arith) kept)
  | inr miss ↦ rw miss (fewer_holders (k + (holds c o + w)) (k + w) (sent c) (ground arith) kept)
]

close_sockets-Kept :
    (which : Socket → Bool) (m : Outgoing) (c : ℕ) (object : Map ℕ Socket)
    (sent : ℕ → List Outgoing) (k : ℕ)
    → closes m ≡ true
    → Kept (k + weigh (holds c) object) (sent c)
    → Kept
        (k + weigh (holds c) (close_sockets which m object sent).0)
        ((close_sockets which m object sent).1 c)
unfolding close_sockets weigh
close_sockets-Kept which m c [] sent k closing kept = kept
close_sockets-Kept which m c ((id, o) ∷ object) sent k closing kept = elim (Bool-cases (which o)) [
  | inr left ↦
      let go = close_sockets-Kept which m c object sent (k + holds c o) closing (
        fewer_holders (k + (holds c o + weigh (holds c) object))
          (k + holds c o + weigh (holds c) object) (sent c) (omega arith) kept) in
      rw left (
        fewer_holders (k + holds c o + weigh (holds c) (close_sockets which m object sent).0)
          (k + (holds c o + weigh (holds c) (close_sockets which m object sent).0))
          ((close_sockets which m object sent).1 c) (omega arith) go)
  | inl chosen ↦ rw chosen (
      close_sockets-Kept which m c object (send_to o.out m sent) k closing
        (closed_one c o m k (weigh (holds c) object) sent closing kept))
]

close_objects-Kept :
    (which : ObjectRef → Socket → Bool) (m : Outgoing) (c : ℕ) (t : Map ObjectRef (Map ℕ Socket))
    (sent : ℕ → List Outgoing) (k : ℕ)
    → closes m ≡ true
    → Kept (k + holders c t) (sent c)
    → Kept (k + holders c (close_objects which m t sent).0) ((close_objects which m t sent).1 c)
unfolding close_objects weigh
close_objects-Kept which m c [] sent k closing kept = kept
close_objects-Kept which m c ((key, object) ∷ t) sent k closing kept =
    let one = close_sockets (which key) m object sent in
    let first = close_sockets-Kept (which key) m c object sent (k + holders c t) closing (
      fewer_holders (k + (weigh (holds c) object + holders c t))
        (k + holders c t + weigh (holds c) object) (sent c) (omega arith) kept) in
    let rest = close_objects-Kept which m c t one.1 (k + weigh (holds c) one.0) closing (
      fewer_holders (k + holders c t + weigh (holds c) one.0)
        (k + weigh (holds c) one.0 + holders c t) (one.1 c) (omega arith) first) in
    fewer_holders (k + weigh (holds c) one.0 + holders c (close_objects which m t one.1).0)
      (k + (weigh (holds c) one.0 + holders c (close_objects which m t one.1).0))
      ((close_objects which m t one.1).1 c) (omega arith) rest

-- A channel without a holder gets nothing.
pub close_sockets-unused :
    (which : Socket → Bool) (m : Outgoing) (c : ℕ) (object : Map ℕ Socket)
    (sent : ℕ → List Outgoing)
    → weigh (holds c) object ≡ 0
    → ((close_sockets which m object sent).1 c ≡ sent c)
      × (weigh (holds c) (close_sockets which m object sent).0 ≡ 0)
unfolding close_sockets weigh
close_sockets-unused which m c [] sent h = (refl, refl)
close_sockets-unused which m c ((id, o) ∷ object) sent h = elim (Bool-cases (which o)) [
  | inr left ↦ rw left (ground (arith, close_sockets-unused which m c object sent))
  | inl chosen ↦
      let rest = close_sockets-unused which m c object (send_to o.out m sent) (omega arith) in
      let other : (c == o.out) ≡ false = ground arith in rw chosen (rest.0 ∙ rw other refl, rest.1)
]

pub close_objects-unused :
    (which : ObjectRef → Socket → Bool) (m : Outgoing) (c : ℕ) (t : Map ObjectRef (Map ℕ Socket))
    (sent : ℕ → List Outgoing)
    → holders c t ≡ 0
    → ((close_objects which m t sent).1 c ≡ sent c)
      × (holders c (close_objects which m t sent).0 ≡ 0)
unfolding close_objects weigh
close_objects-unused which m c [] sent h = (refl, refl)
close_objects-unused which m c ((key, object) ∷ t) sent h =
    let one = close_sockets-unused (which key) m c object sent (omega arith) in
    let rest =
      close_objects-unused which m c t (close_sockets (which key) m object sent).1 (omega arith) in
    (rest.0 ∙ one.0, omega (arith, one.1, rest.1))

empty_weighs :
    (c : ℕ) (object : Map ℕ Socket) → not (is_empty object) ≡ false → weigh (holds c) object ≡ 0
unfolding weigh
empty_weighs c [] h = refl
empty_weighs c (x ∷ object) h = absurd (cc)

pub close_where-Inv :
    (which : ObjectRef → Socket → Bool) (code : ℕ) (reason : String) (s : State)
    → Inv s
    → Inv (close_where which code reason s)
unfolding close_where
close_where-Inv which code reason s i =
    let closed = close_objects which (close code reason) s.sockets s.sent in
    let pruned : (c : ℕ)
        → holders c (retain (λ _ object. not (is_empty object)) closed.0) ≡ holders c closed.0 =
      λ c.
        weigh-retain (weigh (holds c)) (λ _ object. not (is_empty object)) closed.0
          (λ _ object h. empty_weighs c object h) in
    record {
      channels = λ c.
          fewer_holders (0 + holders c closed.0)
            (holders c (retain (λ _ object. not (is_empty object)) closed.0)) (closed.1 c)
            (omega (arith, pruned c))
            (close_objects-Kept which (close code reason) c s.sockets s.sent 0 refl (
              fewer_holders (holders c s.sockets) (0 + holders c s.sockets) (s.sent c) (omega arith)
                (i.channels c)));
      unused = λ c le.
          let none_left =
            close_objects-unused which (close code reason) c s.sockets s.sent (i.unused c le).0 in
          (pruned c ∙ none_left.1, none_left.0 ∙ (i.unused c le).1);
    }
