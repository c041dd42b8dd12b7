-- ===== src/Cohort/Outcome.antt =====
-- internal/cohort/reconcile.go: the part of Reconcile after errgroup.Wait, and Drain. The errors of
-- Terminate are dropped by the source, so Drain shows as the list of the entities that it names.
-- `assembler` is none where the Reconciler has none, and else what Assemble returns for the
-- members: none, or the text of its error. FinishedAt is one time for all the records.
pub mod Records
pub mod Readiness
pub mod Labels
pub mod Draining
pub mod Examples
use queuezero.Prelude.{
  ℕ, String, Bool, true, false, not, ◌&&◌, Option, none, some, List, [], ◌∷◌, map, ◌==◌, leb,
  is_some, if◌then◌else◌,
}
use queuezero.Prelude.Counting.{count_if}
use queuezero.Cohort.State.{Fault, FaultClass, Phase}
use queuezero.Cohort.Entity.{Observation}
use queuezero.Cohort.Build.{Cohort, is_collective}
use queuezero.Cohort.Record.{Record}
use queuezero.Cohort.Tracker.{
  Tracker, is_terminal, set_terminal, set_phase, set_parent_cancelled, set_cohort_cancelled,
  build_record,
}
use queuezero.Cohort.Race.{Member, CulpritInfo, Race, min_viable_of}

-- The Outcome: its records as a map from names, and beside it what Reconcile did to the outside, the
-- entities that were drained and the calls of the assembler.
pub record Outcome : Type 0 where
  pub ready : Bool
  pub records : List (String × Record)
  pub drained : List String
  pub assembled : List (List Observation)

-- Records[id] = rec
abbrev pub put_record : String → Record → List (String × Record) → List (String × Record)
put_record id rec [] = (id, rec) ∷ []
put_record id rec ((j, old) ∷ rest) =
    if j == id then (id, rec) ∷ rest else (j, old) ∷ put_record id rec rest

-- The loop that builds the records.
abbrev pub put_records : String → ℕ → List Tracker → List (String × Record) → List (String × Record)
put_records cohort_id now [] m = m
put_records cohort_id now (t ∷ ts) m =
    put_records cohort_id now ts (put_record t.intent.id (build_record cohort_id now t) m)

-- The entities that Drain is asked to terminate: no fault stored, and an instance known.
abbrev pub survivors : List Tracker → List String
survivors [] = []
survivors (t ∷ ts) =
    let rest = survivors ts in
    if not (is_terminal t) && not (t.obs.provider_id == "") then t.intent.id ∷ rest else rest

-- A change of the trackers with no fault stored.
abbrev pub unless_terminal : (Tracker → Tracker) → Tracker → Tracker
unless_terminal f t = if is_terminal t then t else f t

-- The label of a member of a cohort whose gate stayed shut.
abbrev pub label : CulpritInfo → Tracker → Tracker
label k t =
    if k.id == ""
    then set_parent_cancelled "context canceled" t
    else set_cohort_cancelled
        (record {
          culprit_id = k.id;
          culprit_fault = k.fault;
          culprit_phase = k.phase;
          at = k.at;
          survivor_phase = Phase.launch_acked;
        })
        t

abbrev pub enrolled_observations : List Tracker → List Observation
enrolled_observations [] = []
enrolled_observations (t ∷ ts) =
    let rest = enrolled_observations ts in if t.enrolled then t.obs ∷ rest else rest

abbrev pub terminal_fault : String → String → Fault
terminal_fault code message = record {
  class = FaultClass.terminal;
  code = code;
  retryable = false;
  message = message;
}

abbrev pub assembly_disallowed : Fault
assembly_disallowed =
    terminal_fault "AssemblyDisallowed"
      "partial cohort has NoAssembly=true but Reconciler has a non-nil Assembler; use NewMPICohort for assembly"

abbrev pub trackers_of : Race → List Tracker
trackers_of r = map (λ (m : Member). m.tracker) r.members

module _ (c : Cohort) (now : ℕ) (ts : List Tracker) where
  -- An outcome after `f` was done to each tracker with no fault stored.
  abbrev pub closing : Bool → List String → List (List Observation) → (Tracker → Tracker) → Outcome
  closing ready drained assembled f = record {
    ready = ready;
    records = put_records c.id now (map (unless_terminal f) ts) [];
    drained = drained;
    assembled = assembled;
  }

  pub on_parent : String → Outcome
  on_parent cause = closing false (survivors ts) [] (set_parent_cancelled cause)

  pub on_shut_gate : CulpritInfo → Outcome
  on_shut_gate k = closing false (survivors ts) [] (label k)

  pub on_disallowed : Outcome
  on_disallowed = closing false [] [] (set_terminal Phase.cohort_barrier assembly_disallowed)

  pub on_assembled : List (List Observation) → Option String → Outcome
  on_assembled calls none = closing true [] calls (set_phase Phase.ready)
  on_assembled calls (some message) =
      closing false [] calls
        (set_terminal Phase.cohort_assembly (terminal_fault "AssemblyFailed" message))

  -- Phase 5, once the gate is open and the parent context is live.
  pub on_open_gate : Option (List Observation → Option String) → Outcome
  unfolding on_disallowed on_assembled
  on_open_gate none = on_assembled [] none
  on_open_gate (some assemble) =
      if c.no_assembly
      then on_disallowed
      else if is_collective c
      then on_assembled (enrolled_observations ts ∷ []) (assemble (enrolled_observations ts))
      else on_assembled [] none

pub enrolled_count : List Tracker → ℕ
enrolled_count ts = count_if (λ (t : Tracker). t.enrolled) ts

gate : Cohort → ℕ → Option (List Observation → Option String) → Race → Outcome
unfolding on_shut_gate on_open_gate enrolled_count
gate c now assembler r =
    if leb (min_viable_of c) (enrolled_count (trackers_of r))
    then on_open_gate c now (trackers_of r) assembler
    else on_shut_gate c now (trackers_of r) r.culprit

-- Reconcile, from the return of errgroup.Wait. The parent context is looked at first.
pub conclude : Cohort → ℕ → Option (List Observation → Option String) → Race → Outcome
unfolding gate on_parent
conclude c now assembler r = elim r.parent [
  | some cause ↦ on_parent c now (trackers_of r) cause
  | none ↦ gate c now assembler r
]
