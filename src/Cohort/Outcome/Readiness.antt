-- ===== src/Cohort/Outcome/Readiness.antt =====
-- When a cohort is ready, and what that says of its members.
use queuezero.Prelude.{
  ℕ, ◌≤◌, ◌≡◌, refl, String, Bool, true, false, not, ◌&&◌, ◌||◌, Option, none, some, List, [], ◌∷◌,
  map, arith, All, Option-cases, Bool-cases, inl, inr, ◌↔◌, is_some, if◌then◌else◌, leb, length,
  length-map,
}
use queuezero.Prelude.Counting.{count_if, count_if-full}
use queuezero.Cohort.State.{Fault, LifecycleState}
use queuezero.Cohort.Entity.{Observation}
use queuezero.Cohort.Build.{Cohort, is_collective}
use queuezero.Cohort.Build.Viability.{IsViable}
use queuezero.Cohort.Tracker.{Tracker, is_terminal}
use queuezero.Cohort.Race.{Member, Race, min_viable_of, start_race, new_member}
use queuezero.Cohort.Race.Steps.{Reach, Reach-length}
use queuezero.Cohort.Race.Invariant.{MemberOk, cancelled_in}
use queuezero.Cohort.Race.Gate.{enrolled, min_viable_of-eq, reached-Inv, gate_after_fast_fail}
use queuezero.Cohort.Outcome.{
  Outcome, trackers_of, on_parent, on_shut_gate, on_disallowed, on_assembled, on_open_gate,
  enrolled_count, enrolled_observations, gate, conclude,
}

-- Phase 5 has nothing to do, or may be done and is.
abbrev pub assembles : Cohort → List Tracker → Option (List Observation → Option String) → Bool
assembles c ts none = true
assembles c ts (some assemble) =
    not c.no_assembly
    && (not (is_collective c) || not (is_some (assemble (enrolled_observations ts))))

on_assembled-ready :
    (c : Cohort) (now : ℕ) (ts : List Tracker) (calls : List (List Observation)) (e : Option String)
    → (on_assembled c now ts calls e).ready ≡ not (is_some e)
unfolding on_assembled
on_assembled-ready c now ts calls none = refl
on_assembled-ready c now ts calls (some message) = refl

ready_either :
    (b : Bool) (x y : Outcome) → (if b then x else y).ready ≡ (b && x.ready) || (not b && y.ready)
ready_either true x y = ground arith
ready_either false x y = ground arith

on_open_gate-ready :
    (c : Cohort) (now : ℕ) (ts : List Tracker)
    (assembler : Option (List Observation → Option String))
    → (on_open_gate c now ts assembler).ready ≡ assembles c ts assembler
unfolding on_open_gate on_disallowed
on_open_gate-ready c now ts none = on_assembled-ready c now ts [] none
on_open_gate-ready c now ts (some assemble) = rw (ready_either c.no_assembly _ _) (
    rw (ready_either (is_collective c) _ _) (
      ground (
        arith,
        on_assembled-ready c now ts _ (assemble (enrolled_observations ts)),
        on_assembled-ready c now ts [] none,
      )))

gate-ready :
    (c : Cohort) (now : ℕ) (assembler : Option (List Observation → Option String)) (r : Race)
    → (gate c now assembler r).ready
      ≡ leb (min_viable_of c) (enrolled_count (trackers_of r))
        && assembles c (trackers_of r) assembler
unfolding gate on_shut_gate
gate-ready c now assembler r =
    rw (ready_either (leb (min_viable_of c) (enrolled_count (trackers_of r))) _ _)
      (ground (arith, on_open_gate-ready c now (trackers_of r) assembler))

-- Reconcile reports a cohort as ready exactly when the parent context is live, the members that
-- count as enrolled reach the gate, and the assembly is either not called for (no assembler, or a
-- single member) or is allowed and succeeds.
pub conclude_ready_iff :
    (c : Cohort) (now : ℕ) (assembler : Option (List Observation → Option String)) (r : Race)
    → ((conclude c now assembler r).ready ≡ true) ↔ (
        (r.parent ≡ none)
        × (min_viable_of c ≤ enrolled_count (trackers_of r))
        × (assembles c (trackers_of r) assembler ≡ true))
unfolding conclude on_parent
conclude_ready_iff c now assembler r = elim (Option-cases r.parent) [
  | inl live ↦ rw (live, conclude) (ground (arith, gate-ready c now assembler r))
  | inr (cause, dead) ↦ rw (dead, conclude) (λ e. absurd cc, λ h. absurd cc)
]

-- A member that the barrier should count: enrolled, last observed running, with no fault stored.
abbrev pub is_sound : Member → Bool
is_sound m =
    m.tracker.enrolled
    && not (is_terminal m.tracker)
    && (elim m.tracker.obs.state [ LifecycleState.running ↦ true | _ ↦ false ])

enrolled_sound :
    (b : Bool) (ms : List Member)
    → All (MemberOk b) ms
    → enrolled_count (map (λ (m : Member). m.tracker) ms) ≡ count_if is_sound ms
unfolding enrolled_count
enrolled_sound b [] h = refl
enrolled_sound b (m ∷ ms) h = elim (Bool-cases m.tracker.enrolled) [
  | inl counts ↦
      rw (counts, h.0.apart counts, h.0.seen counts) (ground (arith, enrolled_sound b ms h.1))
  | inr out ↦ rw out (ground (arith, enrolled_sound b ms h.1))
]

enrolled_member :
    (ms : List Member) → enrolled_count (map (λ (m : Member). m.tracker) ms) ≡ count_if enrolled ms
unfolding enrolled_count
enrolled_member [] = refl
enrolled_member (m ∷ ms) = ground (arith, enrolled_member ms)

module _ {E : Type 0} (limited enroller : Bool) (classify : E → Fault) (started : ℕ) (c : Cohort)
    (r : Race) (viable : IsViable c)
    (reached : Reach limited enroller classify (min_viable_of c) (start_race started c) r) where
  -- In every interleaving of a viable cohort that Reconcile reports as ready, no fast-fail happened,
  -- the parent context is live, and at least as many members as the gate asks for are enrolled,
  -- were last observed running and have no fault.
  pub ready_is_sound :
      (now : ℕ) (assembler : Option (List Observation → Option String))
      → (conclude c now assembler r).ready ≡ true
      → (r.fast_failed ≡ false)
        × (r.parent ≡ none)
        × (min_viable_of c ≤ count_if is_sound r.members)
  ready_is_sound now assembler e =
      let (live, met, done) = (conclude_ready_iff c now assembler r).0 e in
      (
        elim (Bool-cases r.fast_failed) [
          | inl failed ↦ absurd (
              omega (
                arith,
                met,
                enrolled_member r.members,
                gate_after_fast_fail limited enroller classify started c r viable reached failed,
              ))
          | inr calm ↦ calm
        ],
        live,
        omega (
          arith,
          met,
          enrolled_sound (cancelled_in r) r.members
              (reached-Inv limited enroller classify started c r viable reached).members,
        ),
      )

  -- When the gate of a viable cohort asks for all its members, as an MPI cohort's does, and
  -- Reconcile reports it as ready, then every member is enrolled, was last observed running and has
  -- no fault.
  pub ready_all_or_nothing :
      (now : ℕ) (assembler : Option (List Observation → Option String))
      → c.min_viable ≡ length c.members
      → (conclude c now assembler r).ready ≡ true
      → All (λ (m : Member). is_sound m ≡ true) r.members
  ready_all_or_nothing now assembler full e = count_if-full is_sound r.members (
      omega (
        arith,
        full,
        min_viable_of-eq c viable,
        (ready_is_sound now assembler e).2,
        Reach-length limited enroller classify (min_viable_of c) (start_race started c) r reached,
        length-map (new_member started) c.members,
      ))
