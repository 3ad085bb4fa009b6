-- ===== src/Durable/Sockets/Stops.antt =====
-- src/durable/sockets.rs over any operations: the room of an object, and the end of an instance.
use openworkers_runner.Durable.Sockets.Calls.{
  Call, accepts, attaches, call, closes_namespace, closes_object, forgets, instance_ends,
  no_sockets, run_calls, sends, sets_attachment, slot_back,
}
use openworkers_runner.Common.{
  Bool, Bool-cases, List, Option, Option-cases, String, [], ap, arith, false, if◌then◌else◌, inl,
  inr, nat_eq, none, not, option_eq, refl, some, string_eq, sym, true, ℕ, ◌&&◌, ◌++◌, ◌==◌, ◌∙◌,
  ◌∷◌, ◌≡◌, ◌≤◌,
}
use openworkers_runner.Common.Lists.{length}
use openworkers_runner.Common.Maps.{
  Map, Unique, Unique-retain, adjust, lookup, lookup-retain-none, retain,
}
use openworkers_runner.Common.Maps.Retained.{lookup_of_retain}
use openworkers_runner.Durable.Sockets.{
  ObjectRef, Socket, State, attach, close, close_namespace, close_object, close_objects,
  close_where, find_socket, hibernatable_sockets, hibernating, hibernating_in, instance_ended,
  object_ref_eq, object_ref_eqb_iff, set_attachment, socket_in,
}
use openworkers_runner.Durable.Sockets.Once.{no_sockets-Inv, run_calls-Inv}
use openworkers_runner.Durable.Sockets.Room.{
  Fits, Sized, accept-Sized, adjust-Fits, forget-Sized, length-retain, send-Sized,
  with_object-Sized,
}
use openworkers_runner.Durable.Sockets.Ended.{
  Unique-close_objects, close_objects-sent, close_where_view, lookup-close_objects, not_empty,
  spared, spared_in,
}

spared-Fits :
    (which : Socket → Bool) (object : Map ℕ Socket) → Fits object → Fits (spared which object)
spared-Fits which object fit = record {
  distinct = Unique-retain (λ _ o. not (which o)) object fit.distinct;
  room = omega (arith, length-retain (λ _ o. not (which o)) object, fit.room);
}

spared_in-Fits :
    (which : Socket → Bool) (found : Option (Map ℕ Socket)) (left : Map ℕ Socket)
    → ((object : Map ℕ Socket) → found ≡ some object → Fits object)
    → spared_in which found ≡ some left
    → Fits left
spared_in-Fits which none left h e = absurd (cc)
spared_in-Fits which (some object) left h e =
    let same : left ≡ spared which object = cc in rw same (spared-Fits which object (h object refl))

close_where-Sized :
    (which : ObjectRef → Socket → Bool) (code : ℕ) (reason : String) (s : State)
    → Sized s
    → Sized (close_where which code reason s)
unfolding close_where
close_where-Sized which code reason s z =
    let m = close code reason in
    let closed = (close_objects which m s.sockets s.sent).0 in
    let unique : Unique closed = Unique-close_objects which m s.sockets s.sent z.unique in
    record {
      unique = Unique-retain not_empty closed unique;
      fits = λ key left found. spared_in-Fits (which key) (lookup key s.sockets) left (z.fits key) (
          sym (lookup-close_objects which m key s.sockets s.sent)
          ∙ lookup_of_retain not_empty key left closed unique found);
    }

call-Sized : (c : Call) (s : State) → Sized s → Sized (call c s)
unfolding call attach set_attachment close_object close_namespace instance_ended
call-Sized (accepts key socket tags hibernatable) s z =
    accept-Sized key socket tags hibernatable s z
call-Sized (attaches key socket waits) s z =
    with_object-Sized key (adjust socket (λ o. record o { attach = false })) s
      (λ object fit. adjust-Fits socket (λ o. record o { attach = false }) object fit) z
call-Sized (sends key socket message) s z = send-Sized key socket message s z
call-Sized (sets_attachment key socket value) s z =
    with_object-Sized key (adjust socket (λ o. record o { attachment = value })) s
      (λ object fit. adjust-Fits socket (λ o. record o { attachment = value }) object fit) z
call-Sized (closes_object key code reason) s z = close_where-Sized (λ k _. k == key) code reason s z
call-Sized (closes_namespace namespace_id) s z =
    close_where-Sized (λ k _. k.namespace_id == namespace_id) 1001
      "the Durable Object namespace was deleted" s z
call-Sized (instance_ends key) s z =
    close_where-Sized (λ k o. k == key && not o.hibernatable) 1011 "the Durable Object stopped" s z
call-Sized (forgets key socket) s z = forget-Sized key socket s z
call-Sized slot_back s z = record { unique = z.unique; fits = z.fits }

run_calls-Sized : (calls : List Call) (s : State) → Sized s → Sized (run_calls calls s)
unfolding run_calls
run_calls-Sized [] s z = z
run_calls-Sized (c ∷ calls) s z = run_calls-Sized calls (call c s) (call-Sized c s z)

no_sockets-Sized : (slots : ℕ) → Sized (no_sockets slots)
unfolding lookup
no_sockets-Sized slots = record { unique = tt; fits = λ _ _ h. absurd (cc) }

-- After any operations on an empty table, an object has at most 32,768 sockets in it.
pub sockets_per_object :
    (slots : ℕ) (calls : List Call) (key : ObjectRef) (object : Map ℕ Socket)
    → lookup key (run_calls calls (no_sockets slots)).sockets ≡ some object
    → length object ≤ 32_768
sockets_per_object slots calls key object found =
    (Sized.fits (run_calls-Sized calls (no_sockets slots) (no_sockets-Sized slots)) key object
      found).room

-- A socket of the object that ended stays if it is hibernatable.
abbrev pub stays : ObjectRef → ObjectRef → Socket → Option Socket
stays target key o = if key == target && not o.hibernatable then none else some o

first_spared :
    (which : Socket → Bool) (id : ℕ) (o : Socket) (j : ℕ) (p : Socket) (object : Map ℕ Socket)
    → p ≡ o
    → (j == id) ≡ true
    → Unique ((j, p) ∷ object)
    → j ≡ id
    → lookup id (spared which ((j, p) ∷ object)) ≡ (if which o then none else some o)
unfolding lookup retain
first_spared which id o j p object same hit u at =
    let nothing : lookup id (spared which object) ≡ none =
      lookup-retain-none (λ _ x. not (which x)) id object (rw (sym at) u.0) in
    elim (Bool-cases (which o)) [
      | inl chosen ↦ rw (same, chosen) nothing
      | inr left ↦ rw (same, left, hit) refl
    ]

lookup-spared :
    (which : Socket → Bool) (id : ℕ) (o : Socket) (object : Map ℕ Socket)
    → Unique object
    → lookup id object ≡ some o
    → lookup id (spared which object) ≡ (if which o then none else some o)
unfolding lookup retain
lookup-spared which id o [] u held = absurd (cc)
lookup-spared which id o ((j, p) ∷ object) u held = elim (Bool-cases (j == id)) [
  | inl hit ↦ first_spared which id o j p object (ground arith) hit u (ground arith)
  | inr miss ↦
      let later = lookup-spared which id o object u.1 (ground arith) in ground (arith, later)
]

hibernating-spared :
    (object : Map ℕ Socket)
    → hibernating (spared (λ o. not o.hibernatable) object) ≡ hibernating object
unfolding hibernating retain
hibernating-spared [] = refl
hibernating-spared ((id, o) ∷ object) = ground (arith, hibernating-spared object)

hibernating_in-spared :
    (b : Bool) (found : Option (Map ℕ Socket))
    → b ≡ true
    → hibernating_in (spared_in (λ o. b && not o.hibernatable) found) ≡ hibernating_in found
unfolding hibernating
hibernating_in-spared b none e = refl
hibernating_in-spared b (some object) e = rw e (hibernating-spared object)

-- After any operations on an empty table, the end of an instance closes each socket of the object
-- that is not hibernatable: it leaves the table, and the close 1011 is the next message in its
-- channel. The other sockets stay as they are and get nothing, and the next instance of the object
-- is given the same hibernatable sockets as before the end.
pub instance_ended_lem :
    (slots : ℕ) (calls : List Call) (target key : ObjectRef) (id : ℕ) (o : Socket)
    → find_socket key id (run_calls calls (no_sockets slots)) ≡ some o
    → (find_socket key id (instance_ended target (run_calls calls (no_sockets slots)))
        ≡ stays target key o)
      × ((instance_ended target (run_calls calls (no_sockets slots))).sent o.out ≡ (
          if key == target && not o.hibernatable
          then (run_calls calls (no_sockets slots)).sent o.out
            ++ (close 1011 "the Durable Object stopped" ∷ [])
          else (run_calls calls (no_sockets slots)).sent o.out))
      × (hibernatable_sockets target (instance_ended target (run_calls calls (no_sockets slots)))
          ≡ hibernatable_sockets target (run_calls calls (no_sockets slots)))
unfolding instance_ended hibernatable_sockets hibernating lookup close_where
instance_ended_lem slots calls target key id o held =
    let s = run_calls calls (no_sockets slots) in
    let z = run_calls-Sized calls (no_sockets slots) (no_sockets-Sized slots) in
    let i = run_calls-Inv calls (no_sockets slots) (no_sockets-Inv slots) in
    let which : ObjectRef → Socket → Bool = λ k p. k == target && not p.hibernatable in
    elim (Option-cases (lookup key s.sockets)) [
      | inl missing ↦ absurd (ground (arith, ap (socket_in id) missing))
      | inr (object, found) ↦
          let there : lookup id object ≡ some o = sym (ap (socket_in id) found) ∙ held in
          (
            close_where_view (socket_in id) which 1011 "the Durable Object stopped" key s refl
                  z.unique
                ∙ ap (λ f. socket_in id (spared_in (which key) f)) found
                ∙ lookup-spared (which key) id o object (z.fits key object found).distinct there,
            close_objects-sent which (close 1011 "the Durable Object stopped") key id o object
                s.sockets s.sent found there (omega (arith, (i.channels o.out).once)),
            close_where_view hibernating_in which 1011 "the Durable Object stopped" target s refl
                  z.unique
                ∙ hibernating_in-spared (target == target) (lookup target s.sockets)
                    ((object_ref_eqb_iff target target).1 refl),
          )
    ]
