-- ===== src/Cohort/Build/Viability.antt =====
-- What the three constructors of cohort.go guarantee of the cohorts that they return.
use queuezero.Prelude.{
  ℕ, zero, suc, ◌≤◌, String, ◌≡◌, ◌≢◌, ◌↔◌, Bool, true, false, none, List, [], ◌∷◌, arith, refl,
  sym, subst, length, All, eq_iff, ok,
}
use queuezero.Cohort.Entity.{Rung, EntityIntent, valid_rung, bad_rung}
use queuezero.Cohort.Build.Budgets.{HasBudget, apply_default_budget-HasBudget}
use queuezero.Cohort.Build.{
  PhaseBudget, Cohort, apply_default_budget, validate_intent, validate_members, new_serial_cohort,
  new_mpi_cohort, new_partial_cohort,
}

-- A rung that can be launched.
abbrev pub IsRung : Rung → Type 0
IsRung r = r.instance_type ≢ ""

pub record IsIntent (m : EntityIntent) : Type 0 where
  pub named : m.id ≢ ""
  pub rung : IsRung m.rung
  pub chain : All IsRung m.fallback_chain

-- A cohort that the reconciler can be run on: members with a name and launchable rungs, and a
-- barrier that its members can meet.
pub record IsViable (c : Cohort) : Type 0 where
  pub members : All IsIntent c.members
  pub positive : 1 ≤ c.min_viable
  pub reachable : c.min_viable ≤ length c.members

-- The outcome of `bad_rung` and of the two validations, both ways.
pub bad_rung-none : (i : ℕ) (rs : List Rung) → bad_rung i rs ≡ none → All IsRung rs
unfolding bad_rung
bad_rung-none i [] h = tt
bad_rung-none i (r ∷ rs) h = (
  ground (arith, eq_iff r.instance_type ""),
  bad_rung-none (suc i) rs (ground (arith, eq_iff r.instance_type "")),
)

pub bad_rung_complete : (i : ℕ) (rs : List Rung) → All IsRung rs → bad_rung i rs ≡ none
unfolding bad_rung
bad_rung_complete i [] h = refl
bad_rung_complete i (r ∷ rs) h =
    ground (arith, eq_iff r.instance_type "", bad_rung_complete (suc i) rs h.1)

pub validate_intent-none : (m : EntityIntent) → validate_intent m ≡ none → IsIntent m
unfolding validate_intent valid_rung
validate_intent-none m h = record {
  named = ground (arith, eq_iff m.id "");
  rung = ground (arith, eq_iff m.rung.instance_type "");
  chain = bad_rung-none zero m.fallback_chain (ground arith);
}

pub validate_intent_complete : (m : EntityIntent) → IsIntent m → validate_intent m ≡ none
unfolding validate_intent valid_rung
validate_intent_complete m h = ground (
  arith,
  eq_iff m.id "",
  eq_iff m.rung.instance_type "",
  bad_rung_complete zero m.fallback_chain h.chain,
)

validate_members-none : (ms : List EntityIntent) → validate_members ms ≡ none → All IsIntent ms
unfolding validate_members
validate_members-none [] h = tt
validate_members-none (m ∷ ms) h =
    (validate_intent-none m (ground arith), validate_members-none ms (ground arith))

pub validate_members_complete :
    (ms : List EntityIntent) → All IsIntent ms → validate_members ms ≡ none
unfolding validate_members
validate_members_complete [] h = refl
validate_members_complete (m ∷ ms) h =
    ground (arith, validate_intent_complete m h.0, validate_members_complete ms h.1)

-- A cohort that one of the three constructors returned.
pub data Built (c : Cohort) : Type 0 where
  serial :
      (id : String) (m : EntityIntent) (b : PhaseBudget) → new_serial_cohort id m b ≡ ok c → Built c
  mpi :
      (id : String) (ms : List EntityIntent) (b : PhaseBudget)
      → new_mpi_cohort id ms b ≡ ok c
      → Built c
  partial :
      (id : String) (ms : List EntityIntent) (b : PhaseBudget) (k : ℕ) (asm : Bool)
      → new_partial_cohort id ms b k asm ≡ ok c
      → Built c

-- The cohort that the constructors store.
abbrev stored : String → List EntityIntent → PhaseBudget → ℕ → Bool → Cohort
stored id ms b k na = record {
  id = id;
  members = ms;
  budget = apply_default_budget b;
  min_viable = k;
  no_assembly = na;
}

module _ (c : Cohort) (id : String) (ms : List EntityIntent) (b : PhaseBudget) (k : ℕ)
    (na : Bool) where
  stored-IsViable :
      c ≡ stored id ms b k na
      → All IsIntent ms
      → 1 ≤ k
      → k ≤ length ms
      → IsViable c × HasBudget c.budget
  stored-IsViable e h p q =
      subst (λ (x : Cohort). IsViable x × HasBudget x.budget) (sym e)
        (record { members = h; positive = p; reachable = q }, apply_default_budget-HasBudget b)

-- Whatever constructor returned it, a cohort has launchable, named members, a barrier between one
-- and the number of its members, and a budget with no phase at zero.
pub Built-IsViable : (c : Cohort) → Built c → IsViable c × HasBudget c.budget
unfolding new_serial_cohort new_mpi_cohort new_partial_cohort
Built-IsViable c (serial id m b e) =
    stored-IsViable c id (m ∷ []) b 1 false (ground arith)
      (validate_intent-none m (ground arith), tt) (omega arith) (omega arith)
Built-IsViable c (mpi id ms b e) =
    stored-IsViable c id ms b (length ms) false (ground arith)
      (validate_members-none ms (ground arith)) (ground arith) (omega arith)
Built-IsViable c (partial id ms b k asm e) =
    stored-IsViable c id ms b k true (ground arith) (validate_members-none ms (ground arith))
      (ground arith) (ground arith)

-- NewPartialCohort returns a cohort exactly when the barrier lies between one and the number of
-- members, no assembler is given, and every member has a name and launchable rungs.
pub new_partial_cohort_iff :
    (id : String) (ms : List EntityIntent) (b : PhaseBudget) (k : ℕ) (asm : Bool)
    → ((c : Cohort) × (new_partial_cohort id ms b k asm ≡ ok c))
      ↔ ((1 ≤ k) × (k ≤ length ms) × (asm ≡ false) × All IsIntent ms)
unfolding new_partial_cohort
new_partial_cohort_iff id ms b k asm = (
  λ (c, e). (ground arith, ground arith, ground arith, validate_members-none ms (ground arith)),
  λ h. (stored id ms b k true, ground (arith, validate_members_complete ms h.3)),
)

-- The other two constructors return a cohort for members that can be launched.
pub new_serial_cohort_complete :
    (id : String) (m : EntityIntent) (b : PhaseBudget)
    → IsIntent m
    → (c : Cohort) × (new_serial_cohort id m b ≡ ok c)
unfolding new_serial_cohort
new_serial_cohort_complete id m b h =
    (stored id (m ∷ []) b 1 false, ground (arith, validate_intent_complete m h))

pub new_mpi_cohort_complete :
    (id : String) (ms : List EntityIntent) (b : PhaseBudget)
    → 1 ≤ length ms
    → All IsIntent ms
    → (c : Cohort) × (new_mpi_cohort id ms b ≡ ok c)
unfolding new_mpi_cohort
new_mpi_cohort_complete id ms b k h =
    (stored id ms b (length ms) false, ground (arith, validate_members_complete ms h))
