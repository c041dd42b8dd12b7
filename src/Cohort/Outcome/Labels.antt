-- ===== src/Cohort/Outcome/Labels.antt =====
-- Every record of an outcome tells one story.
use queuezero.Prelude.{
  ℕ, ◌+◌, ◌≡◌, String, Bool, true, false, Option, none, some, List, [], ◌∷◌, map, arith, All,
  Bool-cases, inl, inr, is_some, if◌then◌else◌, leb, Option-cases,
}
use queuezero.Prelude.Counting.{bit}
use queuezero.Cohort.State.{Fault, Phase}
use queuezero.Cohort.Entity.{Observation}
use queuezero.Cohort.Build.{Cohort, is_collective}
use queuezero.Cohort.Build.Viability.{IsViable}
use queuezero.Cohort.Record.{Record, succeeded, was_cohort_cancelled, was_parent_cancelled}
use queuezero.Cohort.Tracker.{Tracker, build_record, set_parent_cancelled, set_terminal, set_phase}
use queuezero.Cohort.Race.{Member, CulpritInfo, Race, min_viable_of, start_race}
use queuezero.Cohort.Race.Steps.{Reach}
use queuezero.Cohort.Race.Invariant.{MemberOk, cancelled_in}
use queuezero.Cohort.Race.Gate.{reached-Inv}
use queuezero.Cohort.Outcome.Records.{closing-Records}
use queuezero.Cohort.Outcome.{
  Outcome, unless_terminal, label, survivors, closing, trackers_of, on_assembled, on_open_gate,
  gate, conclude, enrolled_count, terminal_fault, assembly_disallowed,
}

-- The four stories of a record, and how many of them it tells.
abbrev pub stories : Record → ℕ
stories r =
    bit (succeeded r)
    + (bit (was_cohort_cancelled r) + (bit (was_parent_cancelled r) + bit (is_some r.terminal)))

abbrev pub HasOneStory : String × Record → Type 0
HasOneStory p = stories p.1 ≡ 1

-- What a tracker's record tells, whatever the cohort's name and the time.
abbrev Tells : Tracker → Type 0
Tells t = (id : String) (now : ℕ) → stories (build_record id now t) ≡ 1

-- A tracker as errgroup.Wait leaves one.
record IsPlain (t : Tracker) : Type 0 where
  cohort_cancelled : t.cohort_cancelled ≡ none
  parent_cancelled : t.parent_cancelled ≡ none

parent-Tells :
    (cause : String) (t : Tracker)
    → IsPlain t
    → Tells (unless_terminal (set_parent_cancelled cause) t)
parent-Tells cause t h id now = ground arith

label-Tells : (k : CulpritInfo) (t : Tracker) → IsPlain t → Tells (unless_terminal (label k) t)
label-Tells k t h id now = ground arith

terminal-Tells :
    (p : Phase) (f : Fault) (t : Tracker) → IsPlain t → Tells (unless_terminal (set_terminal p f) t)
terminal-Tells p f t h id now = ground arith

ready-Tells : (t : Tracker) → IsPlain t → Tells (unless_terminal (set_phase Phase.ready) t)
ready-Tells t h id now = ground arith

either :
    (b : Bool) (x y : Outcome)
    → All HasOneStory x.records
    → All HasOneStory y.records
    → All HasOneStory (if b then x else y).records
either true x y hx hy = hx
either false x y hx hy = hy

module _ (c : Cohort) (now : ℕ) (ts : List Tracker) (plain : All IsPlain ts) where
  closing-All :
      (ready : Bool) (drained : List String) (assembled : List (List Observation))
      (f : Tracker → Tracker)
      → ((t : Tracker) → IsPlain t → Tells (unless_terminal f t))
      → All HasOneStory (closing c now ts ready drained assembled f).records
  closing-All ready drained assembled f h =
      closing-Records (λ rec. stories rec ≡ 1) IsPlain c now ts f (λ t p. h t p c.id now) plain

  on_assembled-All :
      (calls : List (List Observation)) (e : Option String)
      → All HasOneStory (on_assembled c now ts calls e).records
  unfolding on_assembled
  on_assembled-All calls none = closing-All true [] calls (set_phase Phase.ready) ready-Tells
  on_assembled-All calls (some message) =
      closing-All false [] calls _
        (terminal-Tells Phase.cohort_assembly (terminal_fault "AssemblyFailed" message))

  on_open_gate-All :
      (assembler : Option (List Observation → Option String))
      → All HasOneStory (on_open_gate c now ts assembler).records
  unfolding on_open_gate
  on_open_gate-All none = on_assembled-All [] none
  on_open_gate-All (some assemble) =
      either c.no_assembly _ _
        (closing-All false [] [] _ (terminal-Tells Phase.cohort_barrier assembly_disallowed))
        (either (is_collective c) _ _ (on_assembled-All _ _) (on_assembled-All [] none))

all-IsPlain :
    (b : Bool) (ms : List Member)
    → All (MemberOk b) ms
    → All IsPlain (map (λ (m : Member). m.tracker) ms)
all-IsPlain b [] h = tt
all-IsPlain b (m ∷ ms) h = (
  record { cohort_cancelled = h.0.cohort_cancelled; parent_cancelled = h.0.parent_cancelled },
  all-IsPlain b ms h.1,
)

gate-All :
    (c : Cohort) (now : ℕ) (assembler : Option (List Observation → Option String)) (r : Race)
    → All IsPlain (trackers_of r)
    → All HasOneStory (gate c now assembler r).records
unfolding gate
gate-All c now assembler r p =
    elim (Bool-cases (leb (min_viable_of c) (enrolled_count (trackers_of r)))) [
      | inl open_gate ↦ rw (open_gate, gate) (on_open_gate-All c now (trackers_of r) p assembler)
      | inr shut ↦
          rw (shut, gate)
            (closing-All c now (trackers_of r) p false (survivors (trackers_of r)) []
              (label r.culprit) (label-Tells r.culprit))
    ]

module _ {E : Type 0} (limited enroller : Bool) (classify : E → Fault) (started : ℕ) (c : Cohort)
    (r : Race) (viable : IsViable c)
    (reached : Reach limited enroller classify (min_viable_of c) (start_race started c) r) where
  -- For every interleaving of a viable cohort, whatever the parent context and the assembler do,
  -- each record of the outcome tells exactly one of four stories: the entity succeeded, it was
  -- cancelled with its cohort, it was cancelled by the parent, or it has a terminal fault.
  pub records_tell_one :
      (now : ℕ) (assembler : Option (List Observation → Option String))
      → All HasOneStory (conclude c now assembler r).records
  unfolding conclude
  records_tell_one now assembler = elim (Option-cases r.parent) [
    | inl live ↦ rw (live, conclude) (gate-All c now assembler r plain)
    | inr (cause, dead) ↦
        rw (dead, conclude)
          (closing-All c now (trackers_of r) plain false (survivors (trackers_of r)) []
            (set_parent_cancelled cause) (parent-Tells cause))
  ]
    where
      plain : All IsPlain (trackers_of r)
      plain =
          all-IsPlain (cancelled_in r) r.members
            (reached-Inv limited enroller classify started c r viable reached).members
