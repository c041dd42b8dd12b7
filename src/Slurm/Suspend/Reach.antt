-- ===== src/Slurm/Suspend/Reach.antt =====
-- Whom Suspend tears down, where no holds are kept.
use queuezero.Prelude.{
  ℕ, ◌≡◌, refl, sym, ap, ◌∙◌, String, ◌<>◌, Option, none, some, List, [], ◌∷◌, ◌++◌, map,
  snoc-append,
}
use queuezero.Cohort.State.{StopMode}
use queuezero.Slurm.Bridge.{TeardownPort, Bridge}
use queuezero.Slurm.Holds.{reconcile_hold}
use queuezero.Slurm.Suspend.{teardown, after_teardown, suspend_all}

-- A call of the actuator: a node, and the mode of a stop, or none for a termination.
abbrev pub Call : Type 0
Call = String × Option StopMode

-- An actuator that keeps the list of its calls and fails as `fails` says.
abbrev pub recorder : (String → Option String) → TeardownPort (List Call)
recorder fails = record {
  stop = λ id mode w. (fails id, w ++ (id, some mode) ∷ []);
  terminate = λ id w. (fails id, w ++ (id, none) ∷ []);
}

abbrev pub calls_of : Option StopMode → List String → List Call
calls_of action nodes = map (λ (n : String). (n, action)) nodes

abbrev add_failure : String → Option String → List String → List String
add_failure node none rest = rest
add_failure node (some e) rest = (node <> (": " <> e)) ∷ rest

abbrev pub failures : (String → Option String) → List String → List String
failures fails [] = []
failures fails (n ∷ ns) = add_failure n (fails n) (failures fails ns)

append-nil : {A : Type 0} (xs : List A) → xs ≡ xs ++ []
append-nil [] = refl
append-nil {A} (x ∷ xs) = ap (λ (zs : List A). x ∷ zs) (append-nil xs)

module _ (b : Bridge (List Call)) (fails : String → Option String) (now : ℕ)
    (no_store : b.holds ≡ none) where
  teardown-recorder :
      (action : Option StopMode) (node : String) (w : List Call)
      → teardown b (recorder fails) now action node w ≡ (fails node, w ++ (node, action) ∷ [])
  unfolding teardown
  teardown-recorder none node w = refl
  teardown-recorder (some mode) node w = refl

  after_teardown-recorder :
      (node : String) (errs : List String) (e : Option String) (w : List Call)
      → after_teardown b (recorder fails) now node errs (e, w) ≡ (errs ++ add_failure node e [], w)
  unfolding after_teardown reconcile_hold
  after_teardown-recorder node errs none w =
      rw no_store (ap (λ (l : List String). (l, w)) (append-nil errs))
  after_teardown-recorder node errs (some e) w = refl

  joins :
      (node : String) (e : Option String) (errs rest : List String)
      → (errs ++ add_failure node e []) ++ rest ≡ errs ++ add_failure node e rest
  joins node none errs rest = ap (λ (l : List String). l ++ rest) (sym (append-nil errs))
  joins node (some e) errs rest = snoc-append errs (node <> (": " <> e)) rest

  -- Suspend calls the actuator once for each node, in order, all with the action of the partition,
  -- whatever fails; and the errors that it collects are exactly those of the nodes that failed.
  pub suspend_all_reaches :
      (action : Option StopMode) (nodes : List String) (errs : List String) (w : List Call)
      → suspend_all b (recorder fails) now action nodes errs w
        ≡ (errs ++ failures fails nodes, w ++ calls_of action nodes)
  unfolding suspend_all
  suspend_all_reaches action [] errs w =
      ap (λ (l : List String). (l, w)) (append-nil errs)
      ∙ ap (λ (l : List Call). (errs ++ [], l)) (append-nil w)
  suspend_all_reaches action (node ∷ nodes) errs w =
      ap (λ (p : List String × List Call). suspend_all b (recorder fails) now action nodes p.0 p.1)
        (ap (after_teardown b (recorder fails) now node errs) (teardown-recorder action node w)
          ∙ after_teardown-recorder node errs (fails node) (w ++ (node, action) ∷ []))
      ∙ suspend_all_reaches action nodes (errs ++ add_failure node (fails node) [])
          (w ++ (node, action) ∷ [])
      ∙ ap (λ (l : List String). (l, (w ++ (node, action) ∷ []) ++ calls_of action nodes))
          (joins node (fails node) errs (failures fails nodes))
      ∙ ap (λ (l : List Call). (errs ++ failures fails (node ∷ nodes), l))
          (snoc-append w (node, action) (calls_of action nodes))
