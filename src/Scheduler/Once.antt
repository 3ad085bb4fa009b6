-- ===== src/Scheduler/Once.antt =====
-- The claims of src/scheduler.rs over any steps of the runners and of the API.
use mathlib.Core.Option
use openworkers_runner.Common.{
  Bool, Bool-cases, List, Option, Option-cases, String, [], ap, arith, if◌then◌else◌, inl, inr,
  nat_eq, nat_eqb_iff, none, not, option_eq, option_eqb_iff, refl, some, string_eq, suc, sym, true,
  zero, ℕ, ◌&&◌, ◌++◌, ◌==◌, ◌∙◌, ◌∷◌, ◌≡◌, ◌⊎◌,
}
use openworkers_runner.Common.Lists.{All, take}
use openworkers_runner.Common.Maps.{
  Map, adjust, insert, lookup, lookup-adjust, lookup-insert, lookup-remove,
}
use openworkers_runner.Common.Int.{int_eq, leb_ℤ, ℤ, ◌<ℤ◌, ◌≤ℤ◌}
use openworkers_runner.Scheduler.{
  Claim, Cron, DueCron, Event, State, add_due, claim_next, claim_row, claim_rows, claims_row,
  deletes, due_at, due_crons, fails, insert_due, is_claimed, moved_cron, run, scheduled, select_due,
  selects, step, stop_cron, writes,
}

abbrev pub BeforeRun : Option ℤ → ℤ → Type 0
BeforeRun none t = Unit
BeforeRun (some n) t = t <ℤ n

abbrev pub Before : Option Cron → ℤ → Type 0
Before none t = Unit
Before (some c) t = BeforeRun c.next_run t

-- The recorded runs of each cron rise, the newest in front.
abbrev pub Rising : List (ℕ × ℤ) → Type 0
Rising [] = Unit
Rising (e ∷ events) = All (λ o. o.0 ≡ e.0 → o.1 <ℤ e.1) events × Rising events

-- The API writes a cron with a next run that comes after the recorded ones, or with none.
abbrev pub WriteAhead : Event → State → Type 0
WriteAhead (selects _ _) s = Unit
WriteAhead (claims_row _) s = Unit
WriteAhead (fails _) s = Unit
WriteAhead (writes id c) s = All (λ e. e.0 ≡ id → BeforeRun c.next_run e.1) s.events
WriteAhead (deletes _) s = Unit

All-map :
    {A : Type 0} (P Q : A → Type 0) (xs : List A) → ((a : A) → P a → Q a) → All P xs → All Q xs
All-map P Q [] f h = tt
All-map P Q (x ∷ xs) f h = (f x h.0, All-map P Q xs f h.1)

All-zip :
    {A : Type 0} (P Q R : A → Type 0) (xs : List A)
    → ((a : A) → P a → Q a → R a)
    → All P xs
    → All Q xs
    → All R xs
All-zip P Q R [] f h k = tt
All-zip P Q R (x ∷ xs) f h k = (f x h.0 k.0, All-zip P Q R xs f h.1 k.1)

All-take : {A : Type 0} (P : A → Type 0) (n : ℕ) (xs : List A) → All P xs → All P (take n xs)
All-take P zero xs h = tt
All-take P (suc n) [] h = tt
All-take P (suc n) (x ∷ xs) h = (h.0, All-take P n xs h.1)

All-insert_due :
    (P : DueCron → Type 0) (d : DueCron) (rows : List DueCron)
    → P d
    → All P rows
    → All P (insert_due d rows)
All-insert_due P d [] p h = (p, tt)
All-insert_due P d (e ∷ rows) p h = elim (Bool-cases (leb_ℤ d.due_run e.due_run)) [
  | inl first ↦ rw first (p, h)
  | inr later ↦ rw later (h.0, All-insert_due P d rows p h.1)
]

abbrev pub RowsDue : ℤ → List DueCron → Type 0
RowsDue now = All (λ d. d.due_run ≤ℤ now)

due_at_lem :
    (now : ℤ) (run : Option ℤ) (deleted : Bool) (t : ℤ) → due_at now run deleted ≡ some t → t ≤ℤ now
due_at_lem now none deleted t h = absurd (cc)
due_at_lem now (some r) deleted t h = elim (Bool-cases (leb_ℤ r now && not deleted)) [
  | inr no_run ↦ absurd (ground arith)
  | inl due ↦ let same : t ≡ r = ground arith in rw same (ground arith)
]

add_due-RowsDue :
    (now : ℤ) (id : ℕ) (c : Cron) (o : Option ℤ) (rows : List DueCron)
    → ((t : ℤ) → o ≡ some t → t ≤ℤ now)
    → RowsDue now rows
    → RowsDue now (add_due id c o rows)
add_due-RowsDue now id c none rows h r = r
add_due-RowsDue now id c (some t) rows h r =
    All-insert_due (λ d. d.due_run ≤ℤ now)
      (record { id = id; due_worker_id = c.worker_id; pattern = c.value; due_run = t }) rows
      (h t refl) r

due_crons-RowsDue : (now : ℤ) (crons : Map ℕ Cron) → RowsDue now (due_crons now crons)
due_crons-RowsDue now [] = tt
due_crons-RowsDue now ((id, c) ∷ crons) =
    add_due-RowsDue now id c (due_at now c.next_run c.deleted) (due_crons now crons)
      (due_at_lem now c.next_run c.deleted) (due_crons-RowsDue now crons)

pub record Inv (s : State) : Type 0 where
  pub ahead : All (λ e. Before (lookup e.0 s.crons) e.1) s.events
  pub rising : Rising s.events
  pub rows_due :
      (runner : ℕ) (claim : Claim)
      → lookup runner s.claims ≡ some claim
      → RowsDue claim.now claim.rows

-- A change of a cron that sets its next run to none, or leaves it.
stop-Before :
    (f : Cron → Cron) (o : Option Cron) (t : ℤ)
    → ((c : Cron) → ((f c).next_run ≡ none) ⊎ ((f c).next_run ≡ c.next_run))
    → Before o t
    → Before (Option.map f o) t
stop-Before f none t h b = tt
stop-Before f (some c) t h b = elim (h c) [ inl stopped ↦ rw stopped tt | inr same ↦ rw same b ]

stop-ahead :
    (id : ℕ) (f : Cron → Cron) (s : State)
    → ((c : Cron) → ((f c).next_run ≡ none) ⊎ ((f c).next_run ≡ c.next_run))
    → Inv s
    → All (λ e. Before (lookup e.0 (adjust id f s.crons)) e.1) s.events
stop-ahead id f s h i =
    All-map (λ e. Before (lookup e.0 s.crons) e.1)
      (λ e. Before (lookup e.0 (adjust id f s.crons)) e.1) s.events
      (λ e b. rw (lookup-adjust id e.0 f s.crons) (elim (Bool-cases (id == e.0)) [
        | inl hit ↦ rw hit (stop-Before f (lookup e.0 s.crons) e.1 h b)
        | inr miss ↦ rw miss b
      ]))
      i.ahead

stop_cron_lem :
    (d : DueCron) (c : Cron)
    → ((stop_cron d c).next_run ≡ none) ⊎ ((stop_cron d c).next_run ≡ c.next_run)
stop_cron_lem d c = elim (Bool-cases (c.next_run == some d.due_run)) [
  | inl due ↦ rw due (inl refl)
  | inr moved ↦ rw moved (inr refl)
]

moved-Before :
    (next : ℤ) (d : DueCron) (o : Option Cron) (t : ℤ)
    → t <ℤ next
    → Before (Option.map (moved_cron next d) o) t
moved-Before next d none t h = tt
moved-Before next d (some c) t h = h

-- The recorded runs of a cron come before the one that is claimed.
claimed_after :
    (d : DueCron) (c : Cron) (s : State)
    → lookup d.id s.crons ≡ some c
    → c.next_run ≡ some d.due_run
    → Inv s
    → All (λ o. o.0 ≡ d.id → o.1 <ℤ d.due_run) s.events
claimed_after d c s found due i =
    All-map (λ e. Before (lookup e.0 s.crons) e.1) (λ o. o.0 ≡ d.id → o.1 <ℤ d.due_run) s.events
      (λ e b same.
        let there : lookup e.0 s.crons ≡ some c = rw same found in (rw due at (rw there at b)))
      i.ahead

-- One row, of a run that is due at `now`, and a next run after `now`.
pub claim_row-Inv :
    (next : Option ℤ) (now : ℤ) (d : DueCron) (s : State)
    → ((n : ℤ) → next ≡ some n → now <ℤ n)
    → d.due_run ≤ℤ now
    → Inv s
    → Inv (claim_row next d s).1
claim_row-Inv none now d s later due i = record {
  ahead = stop-ahead d.id (stop_cron d) s (stop_cron_lem d) i;
  rising = i.rising;
  rows_due = i.rows_due;
}
claim_row-Inv (some next) now d s later due i =
    elim (Bool-cases (is_claimed d (lookup d.id s.crons))) [
      | inr lost ↦ rw lost i
      | inl won ↦ elim (Option-cases (lookup d.id s.crons)) [
        | inl missing ↦ absurd (ground (arith, ap (is_claimed d) missing))
        | inr (c, found) ↦
            let mine : is_claimed d (some c) ≡ true = sym (ap (is_claimed d) found) ∙ won in
            let run_due : c.next_run ≡ some d.due_run =
              (option_eqb_iff c.next_run (some d.due_run)).0 (ground arith) in
            let after : d.due_run <ℤ next = omega (arith, later next refl) in
            let past = claimed_after d c s found run_due i in
            rw won (record {
              ahead = (
                rw
                    (
                      lookup-adjust d.id d.id (moved_cron next d) s.crons,
                      (nat_eqb_iff d.id d.id).1 refl,
                    )
                    (moved-Before next d (lookup d.id s.crons) d.due_run after),
                All-zip (λ e. Before (lookup e.0 s.crons) e.1) (λ o. o.0 ≡ d.id → o.1 <ℤ d.due_run)
                    (λ e. Before (lookup e.0 (adjust d.id (moved_cron next d) s.crons)) e.1)
                    s.events
                    (λ e b earlier.
                      rw (lookup-adjust d.id e.0 (moved_cron next d) s.crons)
                        (elim (Bool-cases (d.id == e.0)) [
                          | inr miss ↦ rw miss b
                          | inl hit ↦ rw hit (
                              moved-Before next d (lookup e.0 s.crons) e.1 (
                                omega (arith, earlier (sym ((nat_eqb_iff d.id e.0).0 hit)), after)))
                        ]))
                    i.ahead past,
              );
              rising = (past, i.rising);
              rows_due = i.rows_due;
            })
      ]
    ]

-- Every write of the API in a run looks ahead.
abbrev pub WritesAhead : (String → ℤ → Option ℤ) → List Event → State → Type 0
WritesAhead next_run_of [] s = Unit
WritesAhead next_run_of (event ∷ events) s =
    WriteAhead event s × WritesAhead next_run_of events (step next_run_of event s)

module _ (next_run_of : String → ℤ → Option ℤ)
    (strictly_after : (p : String) (now n : ℤ) → next_run_of p now ≡ some n → now <ℤ n) where
  -- The claims of one runner are written.
  claims-Inv :
      (runner : ℕ) (claim : Claim) (s : State)
      → RowsDue claim.now claim.rows
      → Inv s
      → Inv (record s { claims = insert runner claim s.claims })
  claims-Inv runner claim s due i = record {
    ahead = i.ahead;
    rising = i.rising;
    rows_due = λ r c found. elim (Bool-cases (runner == r)) [
      | inl hit ↦
          let same : c ≡ claim = ground (arith, lookup-insert runner r claim s.claims) in
          rw same due
      | inr miss ↦ i.rows_due r c (ground (arith, lookup-insert runner r claim s.claims))
    ];
  }

  claim_rows-Inv :
      (runner : ℕ) (claim : Claim) (rows : List DueCron) (s : State)
      → RowsDue claim.now rows
      → Inv s
      → Inv (claim_rows next_run_of runner claim rows s)
  claim_rows-Inv runner claim [] s due i = i
  claim_rows-Inv runner claim (d ∷ rows) s due i =
      let claimed = claim_row (next_run_of d.pattern claim.now) d s in
      let after =
        claim_row-Inv (next_run_of d.pattern claim.now) claim.now d s
          (strictly_after d.pattern claim.now) due.0 i in
      claims-Inv runner
        (record claim {
          rows = rows;
          due = if claimed.0 then claim.due ++ (scheduled d ∷ []) else claim.due;
        })
        claimed.1 due.1 after

  claim_next-Inv :
      (runner : ℕ) (o : Option Claim) (s : State)
      → lookup runner s.claims ≡ o
      → Inv s
      → Inv (claim_next next_run_of runner o s)
  claim_next-Inv runner none s found i = i
  claim_next-Inv runner (some claim) s found i =
      claim_rows-Inv runner claim claim.rows s (i.rows_due runner claim found) i

  -- A cron that the API writes.
  written-Before :
      (id : ℕ) (c : Cron) (s : State)
      → All (λ e. e.0 ≡ id → BeforeRun c.next_run e.1) s.events
      → Inv s
      → All (λ e. Before (lookup e.0 (insert id c s.crons)) e.1) s.events
  written-Before id c s ahead i =
      All-zip (λ e. Before (lookup e.0 s.crons) e.1) (λ e. e.0 ≡ id → BeforeRun c.next_run e.1)
        (λ e. Before (lookup e.0 (insert id c s.crons)) e.1) s.events
        (λ e b fresh. rw (lookup-insert id e.0 c s.crons) (elim (Bool-cases (id == e.0)) [
          | inl hit ↦ rw hit (fresh (sym ((nat_eqb_iff id e.0).0 hit)))
          | inr miss ↦ rw miss b
        ]))
        i.ahead ahead

  step-Inv :
      (event : Event) (s : State) → WriteAhead event s → Inv s → Inv (step next_run_of event s)
  unfolding step select_due
  step-Inv (selects runner now) s w i =
      claims-Inv runner (record { now = now; rows = take 100 (due_crons now s.crons); due = [] }) s
        (All-take (λ d. d.due_run ≤ℤ now) 100 (due_crons now s.crons)
          (due_crons-RowsDue now s.crons))
        i
  step-Inv (claims_row runner) s w i = claim_next-Inv runner (lookup runner s.claims) s refl i
  step-Inv (fails runner) s w i = record {
    ahead = i.ahead;
    rising = i.rising;
    rows_due = λ r c found. i.rows_due r c (ground (arith, lookup-remove runner r s.claims));
  }
  step-Inv (writes id c) s w i = record {
    ahead = written-Before id c s w i;
    rising = i.rising;
    rows_due = i.rows_due;
  }
  step-Inv (deletes id) s w i = record {
    ahead = stop-ahead id (λ c. record c { deleted = true }) s (λ c. inr refl) i;
    rising = i.rising;
    rows_due = i.rows_due;
  }

  run-Inv :
      (events : List Event) (s : State)
      → WritesAhead next_run_of events s
      → Inv s
      → Inv (run next_run_of events s)
  unfolding run
  run-Inv [] s w i = i
  run-Inv (event ∷ events) s w i =
      run-Inv events (step next_run_of event s) w.1 (step-Inv event s w.0 i)

  -- From a table without recorded events on, and over any claims of any runners whose steps
  -- interleave, errors, deletions and writes of the API: the scheduled times that are recorded for
  -- a cron rise strictly, so no run of a cron is claimed twice. The next run of a pattern comes
  -- after the given time, and a write of the API sets the next run of a cron after the recorded
  -- ones.
  pub run-Rising :
      (crons : Map ℕ Cron) (events : List Event)
      → WritesAhead next_run_of events (record { crons = crons; events = []; claims = [] })
      → Rising (run next_run_of events (record { crons = crons; events = []; claims = [] })).events
  unfolding lookup
  run-Rising crons events ahead =
      (run-Inv events (record { crons = crons; events = []; claims = [] }) ahead
        (record { ahead = tt; rising = tt; rows_due = λ _ _ found. absurd (cc) })).rising
