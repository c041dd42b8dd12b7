-- ===== src/Cohort/Race/Invariant.antt =====
-- What holds of the shared state between two critical sections.
use queuezero.Prelude.{
  ℕ, suc, ◌+◌, ◌-◌, ◌≤◌, ◌<◌, ◌≡◌, refl, sym, String, Bool, true, false, not, ◌&&◌, ◌||◌, Option,
  none, some, List, [], ◌∷◌, arith, ◌⊎◌, inl, inr, subst, ◌==◌, All, length, set, get_elem?, leb,
  is_some, Bool-cases, length-set, length-map, map,
}
use queuezero.Prelude.Counting.{bit, count_if, count_if-set, count_if-le-length, All-set, All-get}
use queuezero.Cohort.State.{Fault, LifecycleState}
use queuezero.Cohort.Entity.{EntityIntent}
use queuezero.Cohort.Build.{Cohort}
use queuezero.Cohort.Tracker.{Tracker, is_terminal}
use queuezero.Cohort.Phases.Finish.{Finished, cancel_seen, reconcile_entity-Finished}
use queuezero.Cohort.Race.{Member, Race, finish, blame, critical, start_race, new_member}
use queuezero.Cohort.Race.Steps.{Step, cancel_parent, end_member, Reach, here, next}

abbrev pub failed : Member → Bool
failed m = is_terminal m.tracker

-- A member, where `cancelled` says whether the contexts of the goroutines are cancelled.
pub record MemberOk (cancelled : Bool) (m : Member) : Type 0 where
  pub named : (m.tracker.intent.id == "") ≡ false
  pub cohort_cancelled : m.tracker.cohort_cancelled ≡ none
  pub parent_cancelled : m.tracker.parent_cancelled ≡ none
  pub apart : m.tracker.enrolled ≡ true → is_terminal m.tracker ≡ false
  pub waiting : m.done ≡ false → (m.tracker.enrolled ≡ false) × (m.tracker.terminal ≡ none)
  pub decided :
      m.done ≡ true
      → (is_terminal m.tracker ≡ true) ⊎ ((m.tracker.enrolled ≡ true) ⊎ (cancelled ≡ true))
  pub seen : m.tracker.enrolled ≡ true → m.tracker.obs.state ≡ LifecycleState.running

abbrev pub cancelled_in : Race → Bool
cancelled_in r = r.fast_failed || is_some r.parent

pub record Inv (min_viable : ℕ) (r : Race) : Type 0 where
  pub members : All (MemberOk (cancelled_in r)) r.members
  pub counted : r.failed_count ≡ count_if failed r.members
  pub unblamed :
      (r.culprit.id == "") ≡ true
      → (min_viable + r.failed_count ≤ length r.members) × (r.fast_failed ≡ false)
  pub blamed :
      (r.culprit.id == "") ≡ false
      → (length r.members < min_viable + r.failed_count) × (r.fast_failed ≡ true)

-- Cancelling more keeps what is known of the members.
later : (c d : Bool) (m : Member) → (c ≡ true → d ≡ true) → MemberOk c m → MemberOk d m
later c d m f h = record {
  named = h.named;
  cohort_cancelled = h.cohort_cancelled;
  parent_cancelled = h.parent_cancelled;
  apart = h.apart;
  waiting = h.waiting;
  decided = λ e. ground (arith, h.decided e);
  seen = h.seen;
}

all_later :
    (c d : Bool) (ms : List Member)
    → (c ≡ true → d ≡ true)
    → All (MemberOk c) ms
    → All (MemberOk d) ms
all_later c d [] f h = tt
all_later c d (m ∷ ms) f h = (later c d m f h.0, all_later c d ms f h.1)

-- The member whose goroutine has ended.
ended :
    (c : Bool) (id : String) (enroller cancelled ready : Bool) (t : Tracker)
    → (id == "") ≡ false
    → (cancelled ≡ true → c ≡ true)
    → Finished id enroller cancelled ready t
    → MemberOk c (record { tracker = t; done = true })
ended c id enroller cancelled ready t n f h = record {
  named = subst (λ (x : String). (x == "") ≡ false) (sym h.named) n;
  cohort_cancelled = h.cohort_cancelled;
  parent_cancelled = h.parent_cancelled;
  apart = h.failed_or_not;
  waiting = cc;
  decided = λ _. ground (arith, h.decided);
  seen = h.enrolled_seen;
}

-- The counter and the culprit after the failure of `t` was counted.
blame-Inv :
    (min_viable now : ℕ) (t : Tracker) (f : Fault) (r : Race)
    → All (MemberOk (cancelled_in r)) r.members
    → (t.intent.id == "") ≡ false
    → suc r.failed_count ≡ count_if failed r.members
    → ((r.culprit.id == "") ≡ true
        → (min_viable + r.failed_count ≤ length r.members) × (r.fast_failed ≡ false))
    → ((r.culprit.id == "") ≡ false
        → (length r.members < min_viable + r.failed_count) × (r.fast_failed ≡ true))
    → Inv min_viable (blame min_viable now t f (record r { failed_count = r.failed_count + 1 }))
unfolding blame
blame-Inv min_viable now t f r ms n c u b =
    elim (Bool-cases
      (not (leb min_viable (length r.members - (r.failed_count + 1))) && (r.culprit.id == ""))) [
        | inl culprit ↦
            rw (culprit, blame)
              (record {
                members = all_later (cancelled_in r) true r.members (λ _. refl) ms;
                counted = omega arith;
                unblamed = λ e. absurd (cc);
                blamed = λ _. (ground arith, refl);
              })
        | inr other ↦
            rw (other, blame)
              (record {
                members = ms;
                counted = omega arith;
                unblamed = λ e. ground (arith, count_if-le-length failed r.members, u e);
                blamed = λ e. ground (arith, b e);
              })
      ]

critical-Inv :
    (min_viable now : ℕ) (t : Tracker) (o : Option Fault) (r : Race)
    → All (MemberOk (cancelled_in r)) r.members
    → (t.intent.id == "") ≡ false
    → r.failed_count + bit (is_some o) ≡ count_if failed r.members
    → ((r.culprit.id == "") ≡ true
        → (min_viable + r.failed_count ≤ length r.members) × (r.fast_failed ≡ false))
    → ((r.culprit.id == "") ≡ false
        → (length r.members < min_viable + r.failed_count) × (r.fast_failed ≡ true))
    → Inv min_viable (critical min_viable now t o r)
unfolding critical
critical-Inv min_viable now t none r ms n c u b = record {
  members = ms;
  counted = omega arith;
  unblamed = u;
  blamed = b;
}
critical-Inv min_viable now t (some f) r ms n c u b =
    blame-Inv min_viable now t f r ms n (omega arith) u b

-- The end of a goroutine whose tracker was fresh, and is now as reconcileEntity leaves one.
finish-Inv :
    (min_viable i now : ℕ) (m : Member) (t : Tracker) (r : Race)
    → get_elem? r.members i ≡ some m
    → m.tracker.terminal ≡ none
    → MemberOk (cancelled_in r) (record { tracker = t; done = true })
    → Inv min_viable r
    → Inv min_viable (finish min_viable i now t r)
unfolding finish
finish-Inv min_viable i now m t r e fresh h v =
    let m' : Member = record { tracker = t; done = true } in
    let n : length (set r.members i m') ≡ length r.members = length-set r.members i m' in
    let z : bit (failed m) ≡ 0 = rw fresh in
    critical-Inv min_viable now t t.terminal (record r { members = set r.members i m' })
      (All-set (MemberOk (cancelled_in r)) r.members i m' v.members h) h.named
      (omega (arith, v.counted, count_if-set failed r.members i m' e, z))
      (λ q. (omega (arith, v.unblamed q), (v.unblamed q).1))
      (λ q. (omega (arith, v.blamed q), (v.blamed q).1))

module _ {E : Type 0} (limited enroller : Bool) (classify : E → Fault) (min_viable : ℕ) where
  -- Every step, the end of a goroutine or the cancellation of the parent, keeps the invariant: the
  -- counter is the number of failed members, and a culprit is recorded, and the fast-fail fired,
  -- exactly when the members left cannot meet the gate.
  pub Step-Inv :
      (r u : Race)
      → Step limited enroller classify min_viable r u
      → Inv min_viable r
      → Inv min_viable u
  Step-Inv r u (cancel_parent cause n e) v = subst (Inv min_viable) (sym e) (record {
    members =
        all_later (cancelled_in r) (r.fast_failed || true) r.members (λ _. ground arith) v.members;
    counted = v.counted;
    unblamed = v.unblamed;
    blamed = v.blamed;
  })
  Step-Inv r u (end_member i now s m t at waits ran cancel e) v =
      let old : MemberOk (cancelled_in r) m =
        All-get (MemberOk (cancelled_in r)) r.members i v.members at in
      let (idle, clean) = old.waiting waits in
      let end : Finished m.tracker.intent.id enroller (cancel_seen s) _ t =
        reconcile_entity-Finished limited enroller classify s m.tracker
          (record {
            enrolled = idle;
            terminal = clean;
            cohort_cancelled = old.cohort_cancelled;
            parent_cancelled = old.parent_cancelled;
          })
          ran in
      subst (Inv min_viable) (sym e) (
        finish-Inv min_viable i now m t r at clean
          (ended (cancelled_in r) m.tracker.intent.id enroller (cancel_seen s) _ t old.named
            (λ c. ground (arith, cancel c)) end)
          v)

  pub Reach-Inv :
      (r u : Race)
      → Reach limited enroller classify min_viable r u
      → Inv min_viable r
      → Inv min_viable u
  Reach-Inv r u here v = v
  Reach-Inv r u (next {u = w} p q) v = Step-Inv w u q (Reach-Inv r w p v)

-- The start.
new_members :
    (now : ℕ) (ms : List EntityIntent)
    → All (λ (m : EntityIntent). (m.id == "") ≡ false) ms
    → All (MemberOk false) (map (new_member now) ms)
new_members now [] h = tt
new_members now (m ∷ ms) h = (
  record {
    named = h.0;
    cohort_cancelled = refl;
    parent_cancelled = refl;
    apart = cc;
    waiting = λ _. (refl, refl);
    decided = cc;
    seen = cc;
  },
  new_members now ms h.1,
)

none_failed : (now : ℕ) (ms : List EntityIntent) → count_if failed (map (new_member now) ms) ≡ 0
none_failed now [] = refl
none_failed now (m ∷ ms) = omega (arith, none_failed now ms)

pub start_race-Inv :
    (now min_viable : ℕ) (c : Cohort)
    → All (λ (m : EntityIntent). (m.id == "") ≡ false) c.members
    → min_viable ≤ length c.members
    → Inv min_viable (start_race now c)
start_race-Inv now min_viable c named h = record {
  members = new_members now c.members named;
  counted = sym (none_failed now c.members);
  unblamed = λ _. (omega (arith, length-map (new_member now) c.members), refl);
  blamed = λ e. absurd (cc);
}
