-- ===== src/Cohort/Frame.antt =====
-- What a phase of reconcileEntity leaves alone in a tracker, and what its result says of it.
use queuezero.Prelude.{◌≡◌, refl, Bool, true, false, ◌||◌, List, [], ◌∷◌, arith, ◌⊎◌, ◌∙◌}
use queuezero.Cohort.Tracker.{Tracker, is_terminal}
use queuezero.Cohort.Launch.{CtxState, live, canceled, deadline_exceeded, Tick}

-- The name, the barrier's flag and the labels of a cancellation are the same.
pub record Keeps (t u : Tracker) : Type 0 where
  pub id : u.intent.id ≡ t.intent.id
  pub enrolled : u.enrolled ≡ t.enrolled
  pub cohort_cancelled : u.cohort_cancelled ≡ t.cohort_cancelled
  pub parent_cancelled : u.parent_cancelled ≡ t.parent_cancelled

pub Keeps-refl : (t : Tracker) → Keeps t t
Keeps-refl t = record {
  id = refl;
  enrolled = refl;
  cohort_cancelled = refl;
  parent_cancelled = refl;
}

pub Keeps-trans : {t u v : Tracker} → Keeps t u → Keeps u v → Keeps t v
Keeps-trans h k = record {
  id = k.id ∙ h.id;
  enrolled = k.enrolled ∙ h.enrolled;
  cohort_cancelled = k.cohort_cancelled ∙ h.cohort_cancelled;
  parent_cancelled = k.parent_cancelled ∙ h.parent_cancelled;
}

abbrev pub is_canceled : CtxState → Bool
is_canceled canceled = true
is_canceled live = false
is_canceled deadline_exceeded = false

-- Some tick found the context cancelled.
abbrev pub saw_cancel {ℓ} : {R : Type ℓ} → List (Tick R) → Bool
saw_cancel [] = false
saw_cancel (k ∷ ks) = is_canceled k.ctx || saw_cancel ks

-- The result `b` of a phase that took a tracker from `t` to `u`: true with no fault stored, or
-- false with one stored, or false with none stored after a cancelled context.
pub record Phased (cancelled : Bool) (t u : Tracker) (b : Bool) : Type 0 where
  pub keeps : Keeps t u
  pub clean : b ≡ true → u.terminal ≡ t.terminal
  pub failed : b ≡ false → ((cancelled ≡ true) × (u.terminal ≡ t.terminal)) ⊎ (is_terminal u ≡ true)

-- A turn that went on, before a phase.
pub Phased-after :
    (c d : Bool) {t u v : Tracker} {b : Bool}
    → Keeps t u
    → u.terminal ≡ t.terminal
    → Phased d u v b
    → Phased (c || d) t v b
Phased-after c d h e p = record {
  keeps = Keeps-trans h p.keeps;
  clean = ground arith;
  failed = λ f. ground (arith, p.failed f);
}
