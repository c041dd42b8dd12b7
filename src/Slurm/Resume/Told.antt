-- ===== src/Slurm/Resume/Told.antt =====
-- What Resume does for a partition of a file that validates.
use queuezero.Prelude.{
  ◌≡◌, ◌≢◌, ◌⊎◌, inl, inr, refl, ap, sym, subst, ℕ, String, ◌<>◌, Bool, true, false, not, ◌&&◌,
  Option, none, some, List, [], ◌∷◌, map, arith, ok, length, nat_beq, All, In, eq_iff, ◌==◌,
  if◌then◌else◌, Bool-cases,
}
use queuezero.Prelude.Counting.{All-get}
use queuezero.Cohort.Entity.{Rung, EntityIntent}
use queuezero.Cohort.Entity.Accepted.{intent_for}
use queuezero.Spec.{Partition, validate, index, lookup, cohort_fallback_chain, cohort_budget}
use queuezero.Spec.Approved.{HasChain, validate_approves}
use queuezero.Spec.Indexed.{validate-lookup}
use queuezero.Slurm.Admission.{
  Verdict, refused, admitted, AdmissionResult, check_admission, record_refusal, finish,
}
use queuezero.Slurm.Shape.Chosen.{IsWhole, build_cohort-IsWhole}
use queuezero.Slurm.Shape.Buildable.{Matches-IsRung, intents_of_named}
use queuezero.Slurm.Shape.Succeeds.{intents-All, build_cohort_complete}
use queuezero.Slurm.Resume.{
  ResumeBridge, ResumeError, Plan, resolve_named, resolve_loaded, resolve_partition, plan_for,
  prepare, persist_holds, reconcile_fleet, on_verdict, launch_plan, after_prepare, resume,
}

few :
    {P Q : Type 0} (ns : List String) (f : String → EntityIntent)
    → (ns ≡ []) ⊎ P ⊎ Q
    → (map f ns ≡ []) ⊎ P ⊎ Q
few ns f (inl e) = inl (ap (map f) e)
few ns f (inr h) = inr h

module _ {W : Type 0} (b : ResumeBridge W) where
  -- A plan for all of these nodes on the approved chain of the partition.
  pub record IsFleet (part : Partition) (nodes : List String) (p : Plan) : Type 0 where
    part_kept : p.part ≡ part
    nodes_kept : p.nodes ≡ nodes
    rest : List Rung
    approved : cohort_fallback_chain part ≡ ok (p.first ∷ rest)
    intents :
        p.intents
        ≡ map
            (intent_for b.sum_hex b.ports.cluster b.generation p.cohort_id p.first (p.first ∷ rest))
            nodes
    whole :
        IsWhole p.intents
          (part.collective && not (nat_beq (length p.intents) 1))
          p.cohort
          p.assembled

  plan_for-IsFleet :
      (part : Partition) (hostlist n : String) (ns : List String)
      → HasChain part
      → All (λ s. s ≢ "") (n ∷ ns)
      → (ns ≡ []) ⊎ (part.collective ≡ false) ⊎ (b.assembler ≡ true)
      → (p : Plan) × (plan_for b part hostlist (n ∷ ns) ≡ ok p) × IsFleet part (n ∷ ns) p
  unfolding plan_for
  plan_for-IsFleet part hostlist n ns chain named shape =
      let id = part.name <> (":" <> hostlist) in
      let (first, rest, q, matches) = chain in
      let launchable = Matches-IsRung part part.fallback_chain (first ∷ rest) matches in
      let intent = intent_for b.sum_hex b.ports.cluster b.generation id first (first ∷ rest) in
      let is_built =
        intents_of_named b.sum_hex b.ports.cluster b.generation id first (first ∷ rest) launchable.0
          launchable (n ∷ ns) named in
      let accepted =
        intents-All b.sum_hex b.ports.cluster b.generation id first (first ∷ rest) launchable.0
          launchable (n ∷ ns) named in
      let (c, x, is_shaped) =
        build_cohort_complete part.collective b.assembler id (intent n) (map intent ns)
          (cohort_budget part) accepted (few ns intent shape) in
      (
        record {
          part = part;
          first = first;
          nodes = n ∷ ns;
          cohort_id = id;
          intents = map intent (n ∷ ns);
          cohort = c;
          assembled = x;
        },
        rw (q, is_built, is_shaped) refl,
        record {
          part_kept = refl;
          nodes_kept = refl;
          rest = rest;
          approved = q;
          intents = refl;
          whole =
              build_cohort-IsWhole part.collective b.assembler id (map intent (n ∷ ns))
                (cohort_budget part) c x is_shaped;
        },
      )

  -- The Reconciler runs on the cohort of the plan, once, and its outcome is written back.
  abbrev pub ran_once : Plan → W → W
  ran_once p w =
      finish b.ports (b.reconcile p.cohort p.assembled w).0 (b.reconcile p.cohort p.assembled w).1

  -- What may happen once a plan is made: the gate refuses it, and the refusal is recorded and written
  -- back; or the gate admits it, and its holds are kept before the one run of the Reconciler; or there is
  -- no gate, and the Reconciler runs once.
  pub data Launches (p : Plan) (now : ℕ) (w : W) : Option ResumeError × W → Type 0 where
    refusal :
        (reason : String) (v : W)
        → b.gated ≡ true
        → check_admission b.ports p.part p.first (length p.nodes) w ≡ (refused reason, v)
        → Launches p now w
            (none, finish b.ports (record_refusal p.intents p.cohort_id now reason) v)
    admission :
        (res : Option AdmissionResult) (v : W)
        → b.gated ≡ true
        → check_admission b.ports p.part p.first (length p.nodes) w ≡ (admitted res, v)
        → Launches p now w (none, ran_once p (persist_holds b b.put_hold p.part res now p.nodes v))
    no_gate : b.gated ≡ false → Launches p now w (none, ran_once p w)

  verdict-Launches :
      (p : Plan) (now : ℕ) (w v : W) (d : Verdict)
      → b.gated ≡ true
      → check_admission b.ports p.part p.first (length p.nodes) w ≡ (d, v)
      → Launches p now w (none, on_verdict b p now (d, v))
  unfolding on_verdict reconcile_fleet
  verdict-Launches p now w v (refused reason) g e = refusal reason v g e
  verdict-Launches p now w v (admitted res) g e = admission res v g e

  plan-Launches : (p : Plan) (now : ℕ) (w : W) → Launches p now w (none, launch_plan b p now w)
  unfolding launch_plan reconcile_fleet
  plan-Launches p now w =
      let c = check_admission b.ports p.part p.first (length p.nodes) w in
      let Goal = λ (t : Bool).
        Launches p now w (none, if t then on_verdict b p now c else reconcile_fleet b p w) in
      elim (Bool-cases b.gated) [
        | inl g ↦ subst Goal (sym g) (verdict-Launches p now w c.1 c.0 g refl)
        | inr g ↦ subst Goal (sym g) (no_gate g)
      ]

  loaded-resolves :
      (ps : List Partition) (part : Partition) (sample : String)
      → validate ps ≡ none
      → In part ps
      → b.partitions ≡ some ps
      → resolve_partition b part.name sample ≡ ok part
  unfolding resolve_partition resolve_loaded resolve_named
  loaded-resolves ps part sample valid (i, here) loaded =
      let named =
        (All-get (λ (p : Partition). (p.name ≢ "") × HasChain p) ps i (validate_approves ps valid)
          here).0 in
      let unnamed : (part.name == "") ≡ false = ground (arith, eq_iff part.name "") in
      let found =
        All-get (λ (p : Partition). lookup p.name (index ps) ≡ some p) ps i
          (validate-lookup ps valid) here in
      rw loaded (ground (arith, unnamed, found, eq_iff part.name ""))

  -- Resume of a partition of a file that validates, once its hostlist is expanded to nodes with names, and
  -- unless the partition is collective, the nodes several and no Assembler there: it returns no error;
  -- it plans one cohort of all the nodes on the approved chain, viable and whole; and then the gate
  -- refuses the fleet, which is recorded and written back, or the Reconciler runs on that cohort once,
  -- after the holds were kept if there is a gate.
  pub resume-Launches :
      (ps : List Partition) (part : Partition) (now : ℕ) (hostlist n : String) (ns : List String)
      (w v : W)
      → validate ps ≡ none
      → In part ps
      → b.partitions ≡ some ps
      → b.show_hostnames hostlist w ≡ (ok (n ∷ ns), v)
      → All (λ s. s ≢ "") (n ∷ ns)
      → (ns ≡ []) ⊎ (part.collective ≡ false) ⊎ (b.assembler ≡ true)
      → (p : Plan) × IsFleet part (n ∷ ns) p × Launches p now v (resume b now part.name hostlist w)
  unfolding resume prepare after_prepare
  resume-Launches ps part now hostlist n ns w v valid (i, here) loaded expanded named shape =
      let chain =
        (All-get (λ (p : Partition). (p.name ≢ "") × HasChain p) ps i (validate_approves ps valid)
          here).1 in
      let (p, planned, fleet) = plan_for-IsFleet part hostlist n ns chain named shape in
      (
        p,
        fleet,
        rw (expanded, loaded-resolves ps part n valid (i, here) loaded, planned)
            (plan-Launches p now v),
      )
