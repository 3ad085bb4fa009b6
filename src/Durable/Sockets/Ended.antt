-- ===== src/Durable/Sockets/Ended.antt =====
-- The closing of many sockets in src/durable/sockets.rs: which go, and what they get.
use openworkers_runner.Common.{
  Bool, Bool-cases, List, Option, Option-cases, String, [], ap, arith, false, if◌then◌else◌, inl,
  inr, nat_eq, none, not, option_eq, refl, some, string_eq, sym, true, ℕ, ◌++◌, ◌+◌, ◌==◌, ◌∙◌, ◌∷◌,
  ◌≡◌, ◌≤◌,
}
use openworkers_runner.Common.Lists.{is_empty}
use openworkers_runner.Common.Maps.{Map, Unique, lookup, lookup-retain-none, retain}
use openworkers_runner.Common.Maps.Retained.{lookup-retain-some, lookup_of_retain}
use openworkers_runner.Common.Maps.Weights.{weigh, weigh-lookup}
use openworkers_runner.Durable.Sockets.{
  ObjectRef, Outgoing, Socket, State, close, close_objects, close_sockets, close_where,
  object_ref_eq, object_ref_eqb_iff, send_to,
}
use openworkers_runner.Durable.Sockets.Closes.{
  close_objects-unused, close_sockets-unused, holders, holds,
}

-- The sockets of an object that `which` does not select.
abbrev pub spared : (Socket → Bool) → Map ℕ Socket → Map ℕ Socket
spared which = retain (λ _ o. not (which o))

abbrev pub spared_in : (Socket → Bool) → Option (Map ℕ Socket) → Option (Map ℕ Socket)
spared_in which none = none
spared_in which (some object) = some (spared which object)

close_sockets-spared :
    (which : Socket → Bool) (m : Outgoing) (object : Map ℕ Socket) (sent : ℕ → List Outgoing)
    → (close_sockets which m object sent).0 ≡ spared which object
unfolding close_sockets retain
close_sockets-spared which m [] sent = refl
close_sockets-spared which m ((id, o) ∷ object) sent = elim (Bool-cases (which o)) [
  | inl chosen ↦ rw chosen (close_sockets-spared which m object (send_to o.out m sent))
  | inr left ↦ rw left (ap (λ l. (id, o) ∷ l) (close_sockets-spared which m object sent))
]

pub lookup-close_objects :
    (which : ObjectRef → Socket → Bool) (m : Outgoing) (key : ObjectRef)
    (t : Map ObjectRef (Map ℕ Socket)) (sent : ℕ → List Outgoing)
    → lookup key (close_objects which m t sent).0 ≡ spared_in (which key) (lookup key t)
unfolding close_objects lookup
lookup-close_objects which m key [] sent = refl
lookup-close_objects which m key ((k, object) ∷ t) sent = elim (Bool-cases (k == key)) [
  | inl hit ↦
      let same : k ≡ key = (object_ref_eqb_iff k key).0 hit in
      rw hit (
        ap some
          (close_sockets-spared (which k) m object sent ∙ ap (λ x. spared (which x) object) same))
  | inr miss ↦
      rw miss (lookup-close_objects which m key t (close_sockets (which k) m object sent).1)
]

pub Unique-close_objects :
    (which : ObjectRef → Socket → Bool) (m : Outgoing) (t : Map ObjectRef (Map ℕ Socket))
    (sent : ℕ → List Outgoing)
    → Unique t
    → Unique (close_objects which m t sent).0
unfolding close_objects
Unique-close_objects which m [] sent u = tt
Unique-close_objects which m ((k, object) ∷ t) sent u =
    let rest = (close_sockets (which k) m object sent).1 in
    (
      lookup-close_objects which m k t rest ∙ ap (spared_in (which k)) u.0,
      Unique-close_objects which m t rest u.1,
    )

abbrev pub not_empty : ObjectRef → Map ℕ Socket → Bool
not_empty _ object = not (is_empty object)

-- The objects without a socket that go make no difference to what is found.
pruned :
    {A : Type 0} (f : Option (Map ℕ Socket) → A) (key : ObjectRef)
    (t : Map ObjectRef (Map ℕ Socket))
    → f none ≡ f (some [])
    → Unique t
    → f (lookup key (retain not_empty t)) ≡ f (lookup key t)
pruned f key t h u = elim (Option-cases (lookup key t)) [
  | inl missing ↦ rw (missing, lookup-retain-none not_empty key t missing) refl
  | inr ([], found) ↦ elim (Option-cases (lookup key (retain not_empty t))) [
    | inl gone ↦ rw (gone, found) h
    | inr (left, kept) ↦
        let same : lookup key t ≡ some left = lookup_of_retain not_empty key left t u kept in
        rw kept (ap f (sym same))
  ]
  | inr (o ∷ object, found) ↦
      rw (found, lookup-retain-some not_empty key (o ∷ object) t found refl) refl
]

-- What a view of an object shows once the selected sockets are closed.
pub close_where_view :
    {A : Type 0} (f : Option (Map ℕ Socket) → A) (which : ObjectRef → Socket → Bool) (code : ℕ)
    (reason : String) (key : ObjectRef) (s : State)
    → f none ≡ f (some [])
    → Unique s.sockets
    → f (lookup key (close_where which code reason s).sockets)
      ≡ f (spared_in (which key) (lookup key s.sockets))
unfolding close_where
close_where_view f which code reason key s h u =
    let m = close code reason in
    pruned f key (close_objects which m s.sockets s.sent).0 h
      (Unique-close_objects which m s.sockets s.sent u)
    ∙ ap f (lookup-close_objects which m key s.sockets s.sent)

holds_self : (o : Socket) → holds o.out o ≡ 1
holds_self o = ground arith

only_one : (a b : ℕ) → a + b ≤ 1 → a ≡ 1 → b ≡ 0
only_one a b h e = omega arith

-- The first socket of the list, which alone sends into its channel.
first_sent :
    (which : Socket → Bool) (m : Outgoing) (j : ℕ) (o : Socket) (object : Map ℕ Socket)
    (sent : ℕ → List Outgoing)
    → weigh (holds o.out) object ≡ 0
    → (close_sockets which m ((j, o) ∷ object) sent).1 o.out
      ≡ (if which o then sent o.out ++ (m ∷ []) else sent o.out)
unfolding close_sockets
first_sent which m j o object sent alone = elim (Bool-cases (which o)) [
  | inl chosen ↦
      let itself : (o.out == o.out) ≡ true = ground arith in
      rw chosen (
        (close_sockets-unused which m o.out object (send_to o.out m sent) alone).0 ∙ rw itself refl)
  | inr left ↦ rw left (close_sockets-unused which m o.out object sent alone).0
]

-- The channel of one socket of an object gets the close once.
close_sockets-sent :
    (which : Socket → Bool) (m : Outgoing) (id : ℕ) (o : Socket) (object : Map ℕ Socket)
    (sent : ℕ → List Outgoing)
    → lookup id object ≡ some o
    → weigh (holds o.out) object ≤ 1
    → (close_sockets which m object sent).1 o.out
      ≡ (if which o then sent o.out ++ (m ∷ []) else sent o.out)
unfolding close_sockets lookup weigh
close_sockets-sent which m id o [] sent held one = absurd (cc)
close_sockets-sent which m id o ((j, p) ∷ object) sent held one = elim (Bool-cases (j == id)) [
  | inl hit ↦
      let same : p ≡ o = ground arith in
      let alone : weigh (holds o.out) object ≡ 0 =
        only_one (holds o.out p) (weigh (holds o.out) object) one
          (ap (holds o.out) same ∙ holds_self o) in
      rw same (first_sent which m j o object sent alone)
  | inr miss ↦
      let later : lookup id object ≡ some o = ground arith in
      let there : 1 ≤ weigh (holds o.out) object =
        omega (arith, weigh-lookup (holds o.out) id o object later, holds_self o) in
      let other : (o.out == p.out) ≡ false = ground arith in
      elim (Bool-cases (which p)) [
        | inr left ↦ rw left (close_sockets-sent which m id o object sent later (omega arith))
        | inl chosen ↦
            let go =
              close_sockets-sent which m id o object (send_to p.out m sent) later (omega arith) in
            rw chosen (go ∙ rw other refl)
      ]
]

pub close_objects-sent :
    (which : ObjectRef → Socket → Bool) (m : Outgoing) (key : ObjectRef) (id : ℕ) (o : Socket)
    (object : Map ℕ Socket) (t : Map ObjectRef (Map ℕ Socket)) (sent : ℕ → List Outgoing)
    → lookup key t ≡ some object
    → lookup id object ≡ some o
    → holders o.out t ≤ 1
    → (close_objects which m t sent).1 o.out
      ≡ (if which key o then sent o.out ++ (m ∷ []) else sent o.out)
unfolding close_objects lookup weigh
close_objects-sent which m key id o object [] sent found held one = absurd (cc)
close_objects-sent which m key id o object ((k, first) ∷ t) sent found held one =
    let closed = (close_sockets (which k) m first sent).1 in
    elim (Bool-cases (k == key)) [
      | inl hit ↦
          let at_key : k ≡ key = (object_ref_eqb_iff k key).0 hit in
          let same : first ≡ object = ground arith in
          let there : 1 ≤ weigh (holds o.out) object =
            omega (arith, weigh-lookup (holds o.out) id o object held, holds_self o) in
          let alone : holders o.out t ≡ 0 =
            omega (arith, there, ap (weigh (holds o.out)) same, one) in
          (close_objects-unused which m o.out t closed alone).0
          ∙ rw (same, at_key)
              (close_sockets-sent (which key) m id o object sent held
                (omega (arith, one, ap (weigh (holds o.out)) same)))
      | inr miss ↦
          let later : lookup key t ≡ some object = ground arith in
          let there : 1 ≤ holders o.out t = omega (
            arith,
            weigh-lookup (weigh (holds o.out)) key object t later,
            weigh-lookup (holds o.out) id o object held,
            holds_self o,
          ) in
          let nothing : closed o.out ≡ sent o.out =
            (close_sockets-unused (which k) m o.out first sent (omega arith)).0 in
          close_objects-sent which m key id o object t closed later held (omega arith)
          ∙ ap (λ l. if which key o then l ++ (m ∷ []) else l) nothing
    ]
