-- ===== src/Spored/Run.antt =====
-- internal/spored/reporter.go: ReportOnce and Run. What one pass of the loop meets is a `Pass`: the provider's ID
-- of the node or the error of Identify, what the probes say, the error of Tag, and the error of the
-- context where the select takes its end, and not the time that is waited for. A duration is a number
-- without a bound. `none` says that the loop runs on.
use queuezero.Prelude.{
  ◌≡◌, refl, ap, sym, ◌∙◌, ℕ, ◌+◌, ◌*◌, String, Bool, true, false, ◌&&◌, Option, none, some, List,
  [], ◌∷◌, ◌++◌, leb, if◌then◌else◌, Result, ok, err, All, arith, snoc-append,
}
use mathlib.Core.List.{append-nil, append_assoc}
use queuezero.Prelude.Loop.{Turn, again, returned, loop, loop_runs}
use queuezero.Aws.Errors.{GoError}
use queuezero.Spored.{Tags, evaluate, report_tags}

pub record Pass : Type 0 where
  pub identified : Result GoError String
  pub probes : List (String × Option String)
  pub tagged : Option GoError
  pub done : Option GoError

-- The counter, and the calls of Tag and the waits so far.
pub record Running : Type 0 where
  pub stable : ℕ
  pub tagged : List (String × Tags)
  pub waits : List ℕ

abbrev is_written : Option GoError → Bool
is_written none = true
is_written (some e) = false

-- ReportOnce: whether it returned ready and no error, and the call of Tag that it made.
abbrev on_identity :
    Result GoError String
    → List (String × Option String)
    → Option GoError
    → Bool × List (String × Tags)
on_identity (err e) probes written = (false, [])
on_identity (ok id) probes written =
    let report = evaluate probes in
    (report.ready && is_written written, (id, report_tags report) ∷ [])

pub report_once : Pass → Bool × List (String × Tags)
report_once k = on_identity k.identified k.probes k.tagged

abbrev until_done : Option GoError → Running → Turn Running (GoError × Running)
until_done none s = again s
until_done (some e) s = returned (e, s)

abbrev pub stable_count : ℕ
stable_count = 2

module _ (interval : ℕ) where
  -- The counter and the wait after a pass.
  abbrev after_report : Bool × List (String × Tags) → Running → Running
  after_report (ready, calls) s =
      let stable = if ready then s.stable + 1 else 0 in
      record {
        stable = stable;
        tagged = s.tagged ++ calls;
        waits = s.waits ++ (if leb stable_count stable then interval * 10 else interval) ∷ [];
      }

  pub run_turn : Pass → Running → Turn Running (GoError × Running)
  unfolding report_once
  run_turn k s = until_done k.done (after_report (report_once k) s)

  -- Reporter.Run
  pub run : List Pass → Option (GoError × Running)
  unfolding loop run_turn
  run ks = loop run_turn ks (record { stable = 0; tagged = []; waits = [] })

-- No probe failed.
abbrev pub all_pass : List (String × Option String) → Bool
all_pass [] = true
all_pass ((name, none) ∷ rest) = all_pass rest
all_pass ((name, some e) ∷ rest) = false

abbrev pub identity_of : Result GoError String → List String
identity_of (ok id) = id ∷ []
identity_of (err e) = []

abbrev is_known : Result GoError String → Bool
is_known (ok id) = true
is_known (err e) = false

-- The node was identified, all its probes pass, and the tags were written.
abbrev pub is_converged : Pass → Bool
is_converged k = is_known k.identified && (all_pass k.probes && is_written k.tagged)

-- The report of each pass whose node was identified.
abbrev reported : List String → List (String × Option String) → List (String × Tags)
reported [] probes = []
reported (id ∷ ids) probes = (id, report_tags (evaluate probes)) ∷ []

abbrev pub reports_of : List Pass → List (String × Tags)
reports_of [] = []
reports_of (k ∷ ks) = reported (identity_of k.identified) k.probes ++ reports_of ks

-- Ten intervals after two passes that converged, one after the other, and else one.
abbrev pub waits_of : ℕ → Bool → List Pass → List ℕ
waits_of interval before [] = []
waits_of interval before (k ∷ ks) =
    (if is_converged k && before then interval * 10 else interval)
    ∷ waits_of interval (is_converged k) ks

ready-all_pass :
    (probes : List (String × Option String)) → (evaluate probes).ready ≡ all_pass probes
unfolding evaluate
ready-all_pass [] = refl
ready-all_pass ((name, none) ∷ rest) = ready-all_pass rest
ready-all_pass ((name, some e) ∷ rest) = refl

once-converged :
    (k : Pass) → report_once k ≡ (is_converged k, reported (identity_of k.identified) k.probes)
unfolding report_once
once-converged k = of_identity k.identified
  where
    of_identity :
        (r : Result GoError String)
        → on_identity r k.probes k.tagged ≡ (
          is_known r && (all_pass k.probes && is_written k.tagged),
          reported (identity_of r) k.probes,
        )
    of_identity (err e) = refl
    of_identity (ok id) = rw (ready-all_pass k.probes) refl

module _ (interval : ℕ) where
  slow_wait :
      (ready : Bool) (stable : ℕ)
      → (if leb stable_count (if ready then stable + 1 else 0) then interval * 10 else interval)
        ≡ (if ready && leb 1 stable then interval * 10 else interval)
  slow_wait true stable = ap (λ (b : Bool). if b then interval * 10 else interval) (two stable)
    where
      two : (n : ℕ) → leb stable_count (n + 1) ≡ leb 1 n
      two n = ground arith
  slow_wait false stable = refl

  is_stable : (ready : Bool) (stable : ℕ) → leb 1 (if ready then stable + 1 else 0) ≡ ready
  is_stable true stable = ground arith
  is_stable false stable = refl

  -- What `s'` shows, where the loop ran from `s` over `ks`.
  abbrev Shows : Running → List Pass → Running → Type 0
  Shows s ks s' =
      (s'.tagged ≡ s.tagged ++ reports_of ks)
      × (s'.waits ≡ s.waits ++ waits_of interval (leb 1 s.stable) ks)

  Shows-nothing : (s : Running) → Shows s [] s
  Shows-nothing s = (sym (append-nil s.tagged), sym (append-nil s.waits))

  -- A pass more at the front.
  Shows-pass :
      (k : Pass) (ks : List Pass) (s s' : Running)
      → Shows (after_report interval (report_once k) s) ks s'
      → Shows s (k ∷ ks) s'
  Shows-pass k ks s s' (t, w) =
      let calls = reported (identity_of k.identified) k.probes in
      let once : report_once k ≡ (is_converged k, calls) = once-converged k in
      let s1 = after_report interval (is_converged k, calls) s in
      let t1 : s'.tagged ≡ s1.tagged ++ reports_of ks =
        t
        ∙ ap
            (λ (o : Bool × List (String × Tags)).
              (after_report interval o s).tagged ++ reports_of ks)
            once in
      let w1 : s'.waits ≡ s1.waits ++ waits_of interval (leb 1 s1.stable) ks =
        w
        ∙ ap
            (λ (o : Bool × List (String × Tags)).
              (after_report interval o s).waits
              ++ waits_of interval (leb 1 (after_report interval o s).stable) ks)
            once in
      (
        t1 ∙ append_assoc s.tagged calls (reports_of ks),
        w1
            ∙ snoc-append s.waits _ (waits_of interval (leb 1 s1.stable) ks)
            ∙ rw (slow_wait (is_converged k) s.stable, is_stable (is_converged k) s.stable) refl,
      )

  run_from :
      (ks : List Pass) (last : Pass) (e : GoError) (s : Running)
      → All (λ k. k.done ≡ none) ks
      → last.done ≡ some e
      → (s' : Running) × (loop (run_turn interval) (ks ++ last ∷ []) s ≡ some (e, s'))
        × Shows s (ks ++ last ∷ []) s'
  unfolding loop run_turn
  run_from [] last e s h d =
      let s' = after_report interval (report_once last) s in
      (s', rw d refl, Shows-pass last [] s s' (Shows-nothing s'))
  run_from (k ∷ ks) last e s h d =
      let s1 = after_report interval (report_once k) s in
      let (s', r, shows) = run_from ks last e s1 h.1 d in
      (s', rw h.0 r, Shows-pass k (ks ++ last ∷ []) s s' shows)

  abbrev start : Running
  start = record { stable = 0; tagged = []; waits = [] }

  goes_on :
      (k : Pass) (s : Running)
      → k.done ≡ none
      → Unit {0}
      → (s' : Running) × (run_turn interval k s ≡ again s') × Unit {0}
  unfolding run_turn
  goes_on k s d t = (after_report interval (report_once k) s, rw d refl, tt)

  -- Run returns with the error of its context in the pass in which the select takes that, and in none
  -- before. Until then, and in that pass, it has reported in every pass whose node was identified, whatever failed
  -- before; and it has waited ten intervals after each pass that converged directly after
  -- another, and one interval after any other. A pass converges when the node is identified, all
  -- its probes pass, and Tag succeeds.
  pub run-reports :
      (ks : List Pass) (last : Pass) (e : GoError)
      → All (λ k. k.done ≡ none) ks
      → last.done ≡ some e
      → (run interval ks ≡ none)
        × ((s : Running) × (run interval (ks ++ last ∷ []) ≡ some (e, s))
            × (s.tagged ≡ reports_of (ks ++ last ∷ []))
            × (s.waits ≡ waits_of interval false (ks ++ last ∷ [])))
  unfolding run
  run-reports ks last e h d =
      let (s, r, shows) = run_from ks last e start h d in
      (
        loop_runs (run_turn interval) (λ s. Unit {0}) (λ k. k.done ≡ none) goes_on ks start h tt,
        (s, r, shows.0, shows.1),
      )
