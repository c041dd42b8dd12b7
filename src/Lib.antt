-- ===== src/Lib.antt =====
-- queuezero: named entities of a cluster, brought up on AWS EC2 as cohorts that are ready together or
-- not at all.
--
-- Parts of the program, and the modules that model them:
--   Prelude      shared names; Tests (Boolean tests), Lists, Texts, Counting, Loop (a `for` loop as
--                a recursion on the list of what its turns meet, with its rules).
--   Cohort       internal/cohort. State (state.go), Entity (entity.go, token.go), Build (cohort.go),
--                Record (explain.go), Backoff (backoff.go); and of reconcile.go: Tracker
--                (entityTracker), Launch (doLaunch, advanceRung), Phases (waitRunning,
--                waitEnrolled, reconcileEntity), Race (the goroutines of Reconcile, their mutex and
--                fast-fail, as a step relation over all interleavings) and Outcome (Reconcile from
--                errgroup.Wait on: parent check, gate, assembly, drain, records).
--   Aws          internal/substrate/aws. Errors (Go's error values), Classifier (classifier.go), Retry
--                (callWithRetry), Client (client.go), Actuator (actuator.go: Actuator, Observer) and Launch
--                (Actuator.Launch).
--   Bootstrap    internal/bootstrap: the mount specs of a node (mount.go) and its userdata (shim.go).
--   Slurm        internal/slurm. Bridge (the ports and what they exchange), Holds (reconcileHold),
--                Suspend (suspend.go), Sweep (sweep.go), Admission
--                (checkAdmission, recordRefusal, finish, writeback), Shape (buildCohort) and Resume
--                (Resume as a whole, resolvePartition, persistHolds);
--                Scontrol (scontrol.go: hostlists, and the commands).
--   Asbb         internal/asbb/client.go: the client of the budget service, with Resume's gate (Gate) and
--                with the closing of holds (Closing).
--   Mpi          internal/mpi: the enroller, and the assembler with its manifest of the peers.
--   Stores       internal/recordstore/store.go and internal/slurm/holdstore.go: files by entity.
--   Limiter      internal/substrate/ratelimit.go, over an interface of floats (Limiter/Numbers).
--   Spec         internal/spec/types.go and load.go: partitions.yaml, validated and converted;
--                Resolve (ResolveForNode); Cluster, of load_cluster.go: cluster.yaml, validated.
--   Preflight    internal/preflight/preflight.go: the checks before anything is provisioned; Cloud, with
--                the Client of EC2 as the Checker (cmd/q0/main.go).
--   Tofu         internal/tofu/generate.go: what the templates of a cluster are given; Backend, of
--                backend.go: the state bucket and the lock table.
--   Spored       internal/spored/reporter.go (evaluate and its tags; Run, the loop), internal/tags, and
--                ReadReadiness of internal/substrate/aws/actuator.go, which reads them.
--
-- How they interact: Reconcile runs reconcileEntity for each member in a goroutine; that calls the
-- Actuator, the Observer and the Enroller through ports, whose answers are here the replies of the
-- ticks of a loop. The Actuator calls the Client, which retries through callWithRetry; its faults come
-- back as errors that the Reconciler hands to its Classifier. Suspend and Sweep call the Actuator for one
-- named node at a time, and close its hold with the budget service after a success. Resume takes
-- the Reconciler as the port that Bridge has it as; its Admitter, like the Reconciler of Suspend's
-- holds, is the Client of Asbb. The preflight asks the Client of Aws, and Tofu generates from the
-- clusters that Spec validates.
--
-- State and operations: an entityTracker is the record Tracker, changed by functions with the names of
-- its methods. The loops of the program are recursions on the list of what their turns meet, and give
-- none where the list ends before they return; Launch.Bound and Retry.Bound say how long a list is
-- enough. Time, random draws and the states of contexts are in that list. A float64 is an exact
-- fraction in Backoff. Durations and times are natural numbers of nanoseconds.
--
-- Not modelled: the texts of Record.Summary and Explain; the hash of cluster.yaml; the probes of spored;
-- List of the record store; pack.go of internal/bootstrap, but for ScriptKey (Aws/Launch/Keys); the
-- templates and the executor of internal/tofu; internal/asbx, the truffle adapter of preflight, and
-- the rest of cmd. Parameters: SHA-256, base64, JSON, HTTP, the parsing of YAML and of a CIDR, the
-- errors and the answers of the provider, CreateTags, and the order in which Go walks a map.
pub mod Prelude
pub mod Asbb
pub mod Aws
pub mod Bootstrap
pub mod Cohort
pub mod Limiter
pub mod Mpi
pub mod Preflight
pub mod Slurm
pub mod Spec
pub mod Spored
pub mod Stores
pub mod Tofu
