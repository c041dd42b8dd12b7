-- ===== src/Slurm/Resume/Steps.antt =====
-- The error paths of Resume, and what a refusal rules out.
use queuezero.Prelude.{
  ◌≡◌, refl, ap, sym, ◌∙◌, if◌then◌else◌, ℕ, String, Bool, true, false, Option, none, some, List,
  [], ◌∷◌, arith, Result, ok, err, length,
}
use queuezero.Cohort.Entity.{Rung}
use queuezero.Cohort.Build.{Cohort}
use queuezero.Cohort.Outcome.{Outcome}
use queuezero.Spec.{Partition}
use queuezero.Slurm.Bridge.{Hold}
use queuezero.Slurm.Admission.{Verdict, refused, admitted, check_admission}
use queuezero.Slurm.Resume.{
  ResumeBridge, ResumeError, Plan, prepare, resolve_partition, resolve_loaded, resolve_named,
  plan_for, reconcile_fleet, on_verdict, launch_plan, after_prepare, resume,
}

module _ {W : Type 0} (b : ResumeBridge W) (now : ℕ) where
  error_stops :
      (r : Result ResumeError Plan) (w : W) (e : ResumeError)
      → (after_prepare b r now w).0 ≡ some e
      → (after_prepare b r now w).1 ≡ w
  unfolding after_prepare
  error_stops (err e') w e h = refl
  error_stops (ok p) w e h = absurd (ground arith)

  -- When Resume returns an error, it has done nothing but expand the hostlist: it asked for no admission,
  -- kept no hold, reconciled no cohort and wrote nothing back.
  pub resume_error_stops :
      (partition hostlist : String) (w : W) (e : ResumeError)
      → (resume b now partition hostlist w).0 ≡ some e
      → (resume b now partition hostlist w).1 ≡ (b.show_hostnames hostlist w).1
  unfolding resume
  resume_error_stops partition hostlist w e h =
      error_stops (prepare b partition hostlist (b.show_hostnames hostlist w).0)
        (b.show_hostnames hostlist w).1 e h

abbrev pub is_refused : Verdict → Bool
is_refused (refused reason) = true
is_refused (admitted res) = false

-- The same bridge with another Reconciler and another store of holds.
abbrev pub with_other :
    {W : Type 0}
    → ResumeBridge W
    → (Cohort → Bool → W → Outcome × W)
    → Option (Hold → W → Option String × W)
    → ResumeBridge W
with_other b reconcile put = record b { reconcile = reconcile; put_hold = put }

abbrev returned_in : {W : Type 0} → W → Option ResumeError × W
returned_in w = (none, w)

module _ {W : Type 0} (b : ResumeBridge W) (reconcile : Cohort → Bool → W → Outcome × W)
    (put : Option (Hold → W → Option String × W)) (now : ℕ) where
  refused_same :
      (p : Plan) (v : Verdict) (w : W)
      → is_refused v ≡ true
      → on_verdict b p now (v, w) ≡ on_verdict (with_other b reconcile put) p now (v, w)
  unfolding on_verdict
  refused_same p (refused reason) w h = refl
  refused_same p (admitted res) w h = absurd cc

  launch_plan_same :
      (p : Plan) (w : W)
      → b.gated ≡ true
      → ((part : Partition) (rung : Rung) (count : ℕ) (v : W)
          → is_refused (check_admission b.ports part rung count v).0 ≡ true)
      → launch_plan b p now w ≡ launch_plan (with_other b reconcile put) p now w
  unfolding launch_plan
  launch_plan_same p w g h =
      let c = check_admission b.ports p.part p.first (length p.nodes) w in
      ap (λ (t : Bool). if t then on_verdict b p now c else reconcile_fleet b p w) g
      ∙ refused_same p c.0 c.1 (h p.part p.first (length p.nodes) w)
      ∙ ap
          (λ (t : Bool).
            if t
            then on_verdict (with_other b reconcile put) p now c
            else reconcile_fleet (with_other b reconcile put) p w)
          (sym g)

  after_prepare_same :
      (r : Result ResumeError Plan) (w : W)
      → ((p : Plan) → launch_plan b p now w ≡ launch_plan (with_other b reconcile put) p now w)
      → after_prepare b r now w ≡ after_prepare (with_other b reconcile put) r now w
  unfolding after_prepare
  after_prepare_same (err e) w same = refl
  after_prepare_same (ok p) w same = ap (returned_in {W = W}) (same p)

  prepare_same :
      (partition hostlist : String) (r : Result String (List String))
      → prepare b partition hostlist r ≡ prepare (with_other b reconcile put) partition hostlist r
  unfolding prepare resolve_partition resolve_loaded resolve_named plan_for
  prepare_same partition hostlist (err e) = refl
  prepare_same partition hostlist (ok []) = refl
  prepare_same partition hostlist (ok (n ∷ ns)) = refl

  -- Where the gate refuses whatever it is asked, Resume launches nothing and keeps no hold: all that it
  -- does and returns is the same with any other Reconciler and any other store of holds.
  pub refused_launches_nothing :
      (partition hostlist : String) (w : W)
      → b.gated ≡ true
      → ((part : Partition) (rung : Rung) (count : ℕ) (v : W)
          → is_refused (check_admission b.ports part rung count v).0 ≡ true)
      → resume b now partition hostlist w
        ≡ resume (with_other b reconcile put) now partition hostlist w
  unfolding resume
  refused_launches_nothing partition hostlist w g h =
      let hosts = b.show_hostnames hostlist w in
      after_prepare_same (prepare b partition hostlist hosts.0) hosts.1
        (λ p. launch_plan_same p hosts.1 g h)
      ∙ ap
          (λ (r : Result ResumeError Plan).
            after_prepare (with_other b reconcile put) r now hosts.1)
          (prepare_same partition hostlist hosts.0)
