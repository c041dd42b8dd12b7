-- ===== src/Slurm/Resume.antt =====
-- internal/slurm/resume.go: Resume, resolvePartition and persistHolds. Hostname expansion, the store of
-- the holds and the Reconciler with its Assembler are ports, as they are in Bridge; what Reconcile does is
-- in Cohort. The order in which Go walks a map, SHA-256 and the division of two floats are parameters of
-- the bridge. Time is an argument. The lines that are printed are left out.
pub mod Steps
pub mod Told
pub mod Examples
use queuezero.Prelude.{
  ℕ, String, ◌<>◌, Bool, true, false, Option, none, some, List, [], ◌∷◌, ◌==◌, if◌then◌else◌,
  Result, ok, err, length,
}
use queuezero.Cohort.Entity.{Rung, EntityIntent, BuildError}
use queuezero.Cohort.Build.{Cohort}
use queuezero.Cohort.Outcome.{Outcome}
use queuezero.Spec.{Partition, SpecError, index, lookup, cohort_fallback_chain, cohort_budget}
use queuezero.Spec.Resolve.{resolve_for_node}
use queuezero.Slurm.Bridge.{Hold}
use queuezero.Slurm.Admission.{
  ResumePorts, AdmissionResult, Verdict, refused, admitted, check_admission, record_refusal, finish,
}
use queuezero.Slurm.Shape.{ShapeError, intents_of, build_cohort}

-- The fields of Bridge and Config that Resume reads. `gated` says that there is an Admitter, which is the
-- `admit` of the ports, and `assembler` that there is an Assembler.
pub record ResumeBridge (W : Type 0) : Type 0 where
  pub ports : ResumePorts W
  pub gated : Bool
  pub assembler : Bool
  pub generation : String
  pub partitions : Option (List Partition)
  pub default_partition : String
  pub show_hostnames : String → W → Result String (List String) × W
  pub put_hold : Option (Hold → W → Option String × W)
  pub reconcile : Cohort → Bool → W → Outcome × W
  pub map_order : List (String × Partition) → List (String × Partition)
  pub sum_hex : String → String
  pub divide : ℕ → ℕ → ℕ

-- `panics` stands for `chain[0]` of an empty chain.
pub data ResumeError : Type 0 where
  expand_failed : String → ResumeError
  no_nodes no_partitions panics : ResumeError
  unknown_partition unresolved : String → ResumeError
  bad_chain : SpecError → ResumeError
  bad_intent : BuildError → ResumeError
  bad_shape : ShapeError → ResumeError

abbrev or_error : ResumeError → Option Partition → Result ResumeError Partition
or_error e none = err e
or_error e (some p) = ok p

-- What Resume works out before it asks for admission.
pub record Plan : Type 0 where
  pub part : Partition
  pub first : Rung
  pub nodes : List String
  pub cohort_id : String
  pub intents : List EntityIntent
  pub cohort : Cohort
  pub assembled : Bool

infixl 5 ◌>>=◌
abbrev ◌>>=◌ :
    {A B : Type 0} → Result ResumeError A → (A → Result ResumeError B) → Result ResumeError B
ok a >>= f = f a
err e >>= f = err e

abbrev converted : Result SpecError (List Rung) → Result ResumeError (List Rung)
converted (err e) = err (bad_chain e)
converted (ok rs) = ok rs

abbrev first_of : List Rung → Result ResumeError Rung
first_of [] = err panics
first_of (r ∷ rs) = ok r

abbrev built : Result BuildError (List EntityIntent) → Result ResumeError (List EntityIntent)
built (err e) = err (bad_intent e)
built (ok is) = ok is

abbrev shaped_as : Result ShapeError (Cohort × Bool) → Result ResumeError (Cohort × Bool)
shaped_as (err e) = err (bad_shape e)
shaped_as (ok c) = ok c

module _ {W : Type 0} (b : ResumeBridge W) where
  -- resolvePartition, of the partitions that are loaded.
  resolve_named : List Partition → String → String → Result ResumeError Partition
  resolve_named ps name sample =
      if name == ""
      then or_error (unresolved sample) (resolve_for_node (b.map_order (index ps)) sample)
      else or_error (unknown_partition name) (lookup name (index ps))

  resolve_loaded : Option (List Partition) → String → String → Result ResumeError Partition
  unfolding resolve_named
  resolve_loaded none partition sample = err no_partitions
  resolve_loaded (some ps) partition sample =
      resolve_named ps (if partition == "" then b.default_partition else partition) sample

  -- Bridge.resolvePartition
  pub resolve_partition : String → String → Result ResumeError Partition
  unfolding resolve_loaded
  resolve_partition partition sample = resolve_loaded b.partitions partition sample

  -- From the partition to the cohort.
  plan_for : Partition → String → List String → Result ResumeError Plan
  plan_for part hostlist nodes = do
    chain ← converted (cohort_fallback_chain part)
    first ← first_of chain
    let id = part.name <> (":" <> hostlist)
    is ← built (intents_of b.sum_hex b.ports.cluster b.generation id first chain nodes)
    shape ← shaped_as (build_cohort part.collective b.assembler id is (cohort_budget part))
    ok (record {
      part = part;
      first = first;
      nodes = nodes;
      cohort_id = id;
      intents = is;
      cohort = shape.0;
      assembled = shape.1;
    })

  -- What comes before admission, from the expanded hostlist.
  pub prepare : String → String → Result String (List String) → Result ResumeError Plan
  unfolding resolve_partition plan_for
  prepare partition hostlist (err e) = err (expand_failed e)
  prepare partition hostlist (ok []) = err no_nodes
  prepare partition hostlist (ok (n ∷ ns)) =
      resolve_partition partition n >>= λ part. plan_for part hostlist (n ∷ ns)

  -- Bridge.persistHolds: an error of Put is only printed.
  abbrev pub hold_of : Partition → AdmissionResult → ℕ → ℕ → String → Hold
  hold_of part res now rate node = record {
    entity = node;
    transaction_id = res.transaction_id;
    account = part.execution_account;
    partition = part.name;
    hourly_rate = rate;
    started_at = now;
  }

  put_holds :
      (Hold → W → Option String × W) → Partition → AdmissionResult → ℕ → ℕ → List String → W → W
  put_holds put part res now rate [] w = w
  put_holds put part res now rate (n ∷ ns) w =
      put_holds put part res now rate ns (put (hold_of part res now rate n) w).1

  pub persist_holds :
      Option (Hold → W → Option String × W)
      → Partition
      → Option AdmissionResult
      → ℕ
      → List String
      → W
      → W
  unfolding put_holds
  persist_holds none part res now nodes w = w
  persist_holds (some put) part none now nodes w = w
  persist_holds (some put) part (some res) now nodes w =
      if res.transaction_id == ""
      then w
      else put_holds put part res now (b.divide res.estimated_cost (length nodes)) nodes w

  -- Reconcile, and finish.
  pub reconcile_fleet : Plan → W → W
  reconcile_fleet p w = let (out, w') = b.reconcile p.cohort p.assembled w in finish b.ports out w'

  -- The gate's answer.
  pub on_verdict : Plan → ℕ → Verdict × W → W
  unfolding persist_holds reconcile_fleet
  on_verdict p now (refused reason, w) =
      finish b.ports (record_refusal p.intents p.cohort_id now reason) w
  on_verdict p now (admitted res, w) =
      reconcile_fleet p (persist_holds b.put_hold p.part res now p.nodes w)

  pub launch_plan : Plan → ℕ → W → W
  unfolding on_verdict
  launch_plan p now w =
      if b.gated
      then on_verdict p now (check_admission b.ports p.part p.first (length p.nodes) w)
      else reconcile_fleet p w

  after_prepare : Result ResumeError Plan → ℕ → W → Option ResumeError × W
  unfolding launch_plan
  after_prepare (err e) now w = (some e, w)
  after_prepare (ok p) now w = (none, launch_plan p now w)

  -- Bridge.Resume
  pub resume : ℕ → String → String → W → Option ResumeError × W
  unfolding after_prepare prepare
  resume now partition hostlist w =
      let (hosts, w') = b.show_hostnames hostlist w in
      after_prepare (prepare partition hostlist hosts) now w'
