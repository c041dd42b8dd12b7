-- ===== src/Cohort/Outcome/Draining.antt =====
-- Whom Reconcile drains.
use queuezero.Prelude.{
  ℕ, ◌≡◌, refl, String, Bool, true, false, Option, none, some, List, [], ◌∷◌, arith, All,
  Option-cases, inl, inr, ◌⊎◌, is_some, if◌then◌else◌, leb, ltb, not, ◌&&◌, ◌||◌, ◌==◌, Bool-cases,
}
use queuezero.Prelude.Counting.{count_if}
use queuezero.Cohort.State.{Fault, Phase}
use queuezero.Cohort.Entity.{Observation}
use queuezero.Cohort.Build.{Cohort, is_collective}
use queuezero.Cohort.Record.{Record}
use queuezero.Cohort.Tracker.{Tracker, set_terminal}
use queuezero.Cohort.Race.{Race, min_viable_of}
use queuezero.Cohort.Outcome.Records.{closing-Records}
use queuezero.Cohort.Outcome.{
  Outcome, survivors, trackers_of, closing, on_parent, on_shut_gate, on_assembled, on_open_gate,
  enrolled_count, gate, conclude, terminal_fault, assembly_disallowed,
}

abbrev pub HasFault : String × Record → Type 0
HasFault p = is_some p.1.terminal ≡ true

-- A member that is running but useless: with an instance that is known, and no fault.
abbrev pub is_left_running : Tracker → Bool
is_left_running t = not (is_some t.terminal) && not (t.obs.provider_id == "")

abbrev pub names_where : (Tracker → Bool) → List Tracker → List String
names_where p [] = []
names_where p (t ∷ ts) = let rest = names_where p ts in if p t then t.intent.id ∷ rest else rest

-- The parent context has ended, or fewer members are enrolled than the gate asks for.
abbrev pub is_stopped : Cohort → Race → Bool
is_stopped c r =
    is_some r.parent
    || ltb (count_if (λ (t : Tracker). t.enrolled) (trackers_of r)) (min_viable_of c)

-- What is drained of a cohort that was stopped, and of one that was not.
abbrev pub Drains : Bool → List Tracker → Outcome → Type 0
Drains true ts o = (o.ready ≡ false) × (o.drained ≡ names_where is_left_running ts)
Drains false ts o =
    (o.drained ≡ []) × ((o.ready ≡ true) ⊎ ((o.ready ≡ false) × All HasFault o.records))

survivors-names_where : (ts : List Tracker) → survivors ts ≡ names_where is_left_running ts
survivors-names_where [] = refl
survivors-names_where (t ∷ ts) = rw (survivors-names_where ts) refl

either :
    (ts : List Tracker) (b : Bool) (x y : Outcome)
    → Drains false ts x
    → Drains false ts y
    → Drains false ts (if b then x else y)
either ts true x y hx hy = hx
either ts false x y hx hy = hy

everyone : (ts : List Tracker) → All {0, 0} (λ (t : Tracker). Unit) ts
everyone [] = tt
everyone (t ∷ ts) = (tt, everyone ts)

module _ (c : Cohort) (now : ℕ) (ts : List Tracker) where
  faulted :
      (calls : List (List Observation)) (p : Phase) (f : Fault)
      → Drains false ts (closing c now ts false [] calls (set_terminal p f))
  faulted calls p f = (
    refl,
    inr (
      refl,
      closing-Records (λ rec. is_some rec.terminal ≡ true) (λ t. Unit) c now ts (set_terminal p f)
          (λ t h. ground arith) (everyone ts),
    ),
  )

  on_assembled-Drains :
      (calls : List (List Observation)) (e : Option String)
      → Drains false ts (on_assembled c now ts calls e)
  unfolding on_assembled
  on_assembled-Drains calls none = (refl, inl refl)
  on_assembled-Drains calls (some message) =
      faulted calls Phase.cohort_assembly (terminal_fault "AssemblyFailed" message)

  on_open_gate-Drains :
      (assembler : Option (List Observation → Option String))
      → Drains false ts (on_open_gate c now ts assembler)
  unfolding on_open_gate
  on_open_gate-Drains none = on_assembled-Drains [] none
  on_open_gate-Drains (some assemble) =
      either ts c.no_assembly _ _ (faulted [] Phase.cohort_barrier assembly_disallowed)
        (either ts (is_collective c) _ _ (on_assembled-Drains _ _) (on_assembled-Drains [] none))

gate-Drains :
    (c : Cohort) (now : ℕ) (assembler : Option (List Observation → Option String)) (r : Race)
    → Drains
        (ltb (count_if (λ (t : Tracker). t.enrolled) (trackers_of r)) (min_viable_of c))
        (trackers_of r)
        (gate c now assembler r)
unfolding gate on_shut_gate enrolled_count
gate-Drains c now assembler r =
    let n = count_if (λ (t : Tracker). t.enrolled) (trackers_of r) in
    elim (Bool-cases (ltb n (min_viable_of c))) [
      | inl few ↦
          let shut : leb (min_viable_of c) n ≡ false = ground arith in
          rw (few, shut) (refl, survivors-names_where (trackers_of r))
      | inr enough ↦
          let opened : leb (min_viable_of c) n ≡ true = ground arith in
          rw (enough, opened) (on_open_gate-Drains c now (trackers_of r) assembler)
    ]

-- A cohort whose parent context has ended, or of which fewer members are enrolled than the gate asks for,
-- is not ready, and drained are exactly its members with a known instance and no fault, in order.
-- Of any other nobody is drained; and it is ready, or each record has a terminal fault: so the
-- instances of members that failed, and of a cohort whose assembly failed, stay.
pub conclude-Drains :
    (c : Cohort) (now : ℕ) (assembler : Option (List Observation → Option String)) (r : Race)
    → Drains (is_stopped c r) (trackers_of r) (conclude c now assembler r)
unfolding conclude on_parent
conclude-Drains c now assembler r = elim (Option-cases r.parent) [
  | inl live ↦ rw (live, conclude) (gate-Drains c now assembler r)
  | inr (cause, dead) ↦ rw (dead, conclude) (refl, survivors-names_where (trackers_of r))
]
