-- ===== src/Durable/Sockets/Room.antt =====
-- The table of src/durable/sockets.rs: the room of an object, and no entry that stands twice.
use openworkers_runner.Common.{
  Bool, Bool-cases, List, Option-cases, String, [], arith, inl, inr, leb, nat_eq, nat_eqb,
  option_eq, refl, some, string_eq, ℕ, ◌<◌, ◌==◌, ◌∷◌, ◌≡◌, ◌≤◌,
}
use openworkers_runner.Common.Lists.{is_empty, length}
use openworkers_runner.Common.Maps.{
  Map, Unique, adjust, insert, lookup, lookup-insert, lookup-remove, remove, retain,
}
use openworkers_runner.Common.Maps.Counting.{Unique-adjust, Unique-insert, Unique-remove}
use openworkers_runner.Durable.Sockets.{
  ObjectRef, Outgoing, Socket, State, accept, closes, forget, max_sockets_per_object, new_socket,
  object_ref_eq, send, sockets_of, with_object,
}

pub record Fits (object : Map ℕ Socket) : Type 0 where
  pub distinct : Unique object
  pub room : length object ≤ max_sockets_per_object

pub record Sized (s : State) : Type 0 where
  pub unique : Unique s.sockets
  pub fits :
      (key : ObjectRef) (object : Map ℕ Socket) → lookup key s.sockets ≡ some object → Fits object

length-remove : (k : ℕ) (m : Map ℕ Socket) → length (remove k m) ≤ length m
unfolding remove
length-remove k [] = omega arith
length-remove k ((j, v) ∷ m) = ground (arith, length-remove k m)

pub length-retain :
    (keep : ℕ → Socket → Bool) (m : Map ℕ Socket) → length (retain keep m) ≤ length m
unfolding retain
length-retain keep [] = omega arith
length-retain keep ((j, v) ∷ m) = ground (arith, length-retain keep m)

length-adjust : (k : ℕ) (f : Socket → Socket) (m : Map ℕ Socket) → length (adjust k f m) ≡ length m
unfolding adjust
length-adjust k f [] = refl
length-adjust k f ((j, v) ∷ m) = ground (arith, length-adjust k f m)

no_sockets-Fits : Fits []
no_sockets-Fits = record { distinct = tt; room = omega arith }

remove-Fits : (socket : ℕ) (object : Map ℕ Socket) → Fits object → Fits (remove socket object)
remove-Fits socket object fit = record {
  distinct = Unique-remove socket object fit.distinct;
  room = omega (arith, length-remove socket object, fit.room);
}

pub adjust-Fits :
    (socket : ℕ) (f : Socket → Socket) (object : Map ℕ Socket)
    → Fits object
    → Fits (adjust socket f object)
adjust-Fits socket f object fit = record {
  distinct = Unique-adjust socket f object fit.distinct;
  room = omega (arith, length-adjust socket f object, fit.room);
}

longer :
    (socket : ℕ) (o : Socket) (object : Map ℕ Socket)
    → length object < max_sockets_per_object
    → length (insert socket o object) ≤ max_sockets_per_object
unfolding insert
longer socket o object small = omega (arith, length-remove socket object)

insert-Fits :
    (socket : ℕ) (o : Socket) (object : Map ℕ Socket)
    → length object < max_sockets_per_object
    → Fits object
    → Fits (insert socket o object)
insert-Fits socket o object small fit = record {
  distinct = Unique-insert socket o object fit.distinct;
  room = longer socket o object small;
}

sockets_of-Fits : (key : ObjectRef) (s : State) → Sized s → Fits (sockets_of key s.sockets)
sockets_of-Fits key s z = elim (Option-cases (lookup key s.sockets)) [
  | inl missing ↦ rw missing no_sockets-Fits
  | inr (object, found) ↦ rw found (z.fits key object found)
]

pub put-Sized :
    (key : ObjectRef) (object : Map ℕ Socket) (s : State)
    → Fits object
    → Sized s
    → Sized (record s { sockets = insert key object s.sockets })
put-Sized key object s fit z = record {
  unique = Unique-insert key object s.sockets z.unique;
  fits = λ k o found. elim (Bool-cases (key == k)) [
    | inl hit ↦
        let same : o ≡ object = ground (arith, lookup-insert key k object s.sockets) in rw same fit
    | inr miss ↦ z.fits k o (ground (arith, lookup-insert key k object s.sockets))
  ];
}

pub with_object-Sized :
    (key : ObjectRef) (f : Map ℕ Socket → Map ℕ Socket) (s : State)
    → ((object : Map ℕ Socket) → Fits object → Fits (f object))
    → Sized s
    → Sized (with_object key f s)
with_object-Sized key f s h z = elim (Option-cases (lookup key s.sockets)) [
  | inl missing ↦ rw missing z
  | inr (object, found) ↦
      rw found (put-Sized key (f object) s (h object (z.fits key object found)) z)
]

pub accept-Sized :
    (key : ObjectRef) (socket : ℕ) (tags : List String) (hibernatable : Bool) (s : State)
    → Sized s
    → Sized (accept key socket tags hibernatable s).1
unfolding accept
accept-Sized key socket tags hibernatable s z =
    let object = sockets_of key s.sockets in
    let fit = sockets_of-Fits key s z in
    elim (Bool-cases (nat_eqb s.free_slots 0)) [
      | inl no_slot ↦ rw no_slot z
      | inr slot ↦ elim (Bool-cases (leb max_sockets_per_object (length object))) [
        | inl full ↦ rw (slot, full) (put-Sized key object s fit z)
        | inr room ↦
            let o = new_socket s.next tags hibernatable in
            let kept =
              put-Sized key (insert socket o object) s
                (insert-Fits socket o object (ground arith) fit) z in
            rw (slot, room) (record { unique = kept.unique; fits = kept.fits })
      ]
    ]

pub send-Sized :
    (key : ObjectRef) (socket : ℕ) (m : Outgoing) (s : State)
    → Sized s
    → Sized (send key socket m s)
unfolding send
send-Sized key socket m s z = elim (Option-cases (lookup key s.sockets)) [
  | inl missing ↦ rw missing z
  | inr (object, found) ↦ elim (Bool-cases (closes m)) [
    | inl closing ↦
        let kept =
          put-Sized key (remove socket object) s
            (remove-Fits socket object (z.fits key object found)) z in
        rw (found, closing) (record { unique = kept.unique; fits = kept.fits })
    | inr other ↦
        let kept = put-Sized key object s (z.fits key object found) z in
        rw (found, other) (record { unique = kept.unique; fits = kept.fits })
  ]
]

pub forget-Sized :
    (key : ObjectRef) (socket : ℕ) (s : State) → Sized s → Sized (forget key socket s)
unfolding forget
forget-Sized key socket s z = elim (Option-cases (lookup key s.sockets)) [
  | inl missing ↦ rw missing z
  | inr (object, found) ↦ elim (Bool-cases (is_empty (remove socket object))) [
    | inl alone ↦
        rw (found, alone)
          (record {
            unique = Unique-remove key s.sockets z.unique;
            fits = λ k o h. z.fits k o (ground (arith, lookup-remove key k s.sockets));
          })
    | inr others ↦
        rw (found, others)
          (put-Sized key (remove socket object) s
            (remove-Fits socket object (z.fits key object found)) z)
  ]
]
