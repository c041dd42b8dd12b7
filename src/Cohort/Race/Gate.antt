-- ===== src/Cohort/Race/Gate.antt =====
-- The barrier after errgroup.Wait, against the count that the goroutines kept.
use queuezero.Prelude.{
  ℕ, ◌+◌, ◌≤◌, ◌<◌, ◌≡◌, Bool, true, false, none, List, [], ◌∷◌, arith, inl, inr, All, length, ◌==◌,
  Bool-cases, subst, ◌≢◌, eq_iff,
}
use queuezero.Prelude.Counting.{count_if}
use queuezero.Cohort.State.{Fault}
use queuezero.Cohort.Entity.{EntityIntent}
use queuezero.Cohort.Build.{Cohort}
use queuezero.Cohort.Build.Viability.{IsIntent, IsViable}
use queuezero.Cohort.Race.{Member, Race, min_viable_of, start_race}
use queuezero.Cohort.Race.Steps.{Reach}
use queuezero.Cohort.Race.Invariant.{MemberOk, Inv, failed, cancelled_in, start_race-Inv, Reach-Inv}

abbrev pub enrolled : Member → Bool
enrolled m = m.tracker.enrolled

abbrev pub IsDone : Race → Type 0
IsDone r = All (λ (m : Member). m.done ≡ true) r.members

-- No member is both enrolled and failed.
enrolled_and_failed :
    (c : Bool) (ms : List Member)
    → All (MemberOk c) ms
    → count_if enrolled ms + count_if failed ms ≤ length ms
enrolled_and_failed c [] h = omega arith
enrolled_and_failed c (m ∷ ms) h = ground (arith, h.0.apart, enrolled_and_failed c ms h.1)

-- With nothing cancelled, each one that is done is one of the two.
enrolled_or_failed :
    (ms : List Member)
    → All (MemberOk false) ms
    → All (λ (m : Member). m.done ≡ true) ms
    → length ms ≤ count_if enrolled ms + count_if failed ms
enrolled_or_failed [] h d = omega arith
enrolled_or_failed (m ∷ ms) h d = ground (arith, h.0.decided d.0, enrolled_or_failed ms h.1 d.1)

module _ (min_viable : ℕ) (r : Race) (v : Inv min_viable r) where
  -- After a fast-fail the gate does not open, although a member that was cancelled while it waited
  -- for its enroller counts as enrolled.
  fast_failed-gate : r.fast_failed ≡ true → count_if enrolled r.members < min_viable
  fast_failed-gate f = elim (Bool-cases (r.culprit.id == "")) [
    | inl none_yet ↦ absurd (ground (arith, v.unblamed none_yet))
    | inr blamed ↦
        omega (arith, (v.blamed blamed).0, v.counted, enrolled_and_failed _ r.members v.members)
  ]

  -- When all the goroutines have ended, with no parent cancellation, a gate that stays shut has a
  -- culprit.
  shut_gate-culprit :
      IsDone r
      → r.parent ≡ none
      → count_if enrolled r.members < min_viable
      → (r.culprit.id == "") ≡ false
  shut_gate-culprit d p shut = elim (Bool-cases (r.culprit.id == "")) [
    | inl none_yet ↦
        let calm : cancelled_in r ≡ false = ground (arith, v.unblamed none_yet) in
        let ms : All (MemberOk false) r.members =
          subst (λ c. All (MemberOk c) r.members) calm v.members in
        absurd (
          omega
            (arith, (v.unblamed none_yet).0, v.counted, enrolled_or_failed r.members ms d, shut))
    | inr blamed ↦ blamed
  ]

all_named :
    (ms : List EntityIntent) → All IsIntent ms → All (λ (m : EntityIntent). (m.id == "") ≡ false) ms
all_named [] h = tt
all_named (m ∷ ms) h = (ground (arith, eq_iff m.id "", h.0.named), all_named ms h.1)

-- The gate that Reconcile computes for a cohort of the constructors is the one that was asked for.
pub min_viable_of-eq : (c : Cohort) → IsViable c → min_viable_of c ≡ c.min_viable
unfolding min_viable_of
min_viable_of-eq c h = ground (arith, h.positive)

module _ {E : Type 0} (limited enroller : Bool) (classify : E → Fault) (now : ℕ) (c : Cohort)
    (r : Race) (viable : IsViable c)
    (reached : Reach limited enroller classify (min_viable_of c) (start_race now c) r) where
  pub reached-Inv : Inv (min_viable_of c) r
  reached-Inv = Reach-Inv limited enroller classify (min_viable_of c) (start_race now c) r reached (
      start_race-Inv now (min_viable_of c) c (all_named c.members viable.members)
        (omega (arith, min_viable_of-eq c viable, viable.reachable)))

  -- In every interleaving of the goroutines of a viable cohort, after a fast-fail fewer members count
  -- as enrolled than the gate asks for, although one that was cancelled while it waited for its
  -- enroller counts as enrolled too. So a fast-failed cohort never passes the barrier.
  pub gate_after_fast_fail : r.fast_failed ≡ true → count_if enrolled r.members < min_viable_of c
  gate_after_fast_fail = fast_failed-gate (min_viable_of c) r reached-Inv

  -- In every interleaving, when all goroutines have ended, the parent context is live and fewer
  -- members are enrolled than the gate asks for, a culprit was recorded before. So the label without
  -- a culprit, which Reconcile keeps for this case, is never given.
  pub culprit_of_shut_gate :
      IsDone r
      → r.parent ≡ none
      → count_if enrolled r.members < min_viable_of c
      → (r.culprit.id ≢ "") × (r.fast_failed ≡ true)
  culprit_of_shut_gate d p shut =
      let b : (r.culprit.id == "") ≡ false =
        shut_gate-culprit (min_viable_of c) r reached-Inv d p shut in
      (ground (arith, eq_iff r.culprit.id ""), (reached-Inv.blamed b).1)
