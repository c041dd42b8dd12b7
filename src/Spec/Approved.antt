-- ===== src/Spec/Approved.antt =====
-- What Partitions.validate guarantees of the chain that reaches a launch.
use queuezero.Prelude.{
  ℕ, suc, ◌≡◌, ◌≢◌, refl, ap, sym, subst, String, Bool, true, ◌||◌, false, none, some, List, [],
  ◌∷◌, arith, All, eq_iff, ok, Option-cases, inl, inr,
}
use queuezero.Prelude.Texts.{codes, codes_eq, to_lower, trim_space}
use queuezero.Cohort.Entity.{Rung, CapacityModel, on_demand, spot, reserved}
use queuezero.Cohort.Build.Viability.{IsRung}
use queuezero.Spec.{
  SpecRung, Partition, capacity_model_from_string, validate_rung, validate_rungs, validate_chain,
  mem_name, validate_partition, validate_from, validate, cohort_rung, push, chain_from,
  cohort_fallback_chain,
}

abbrev pub any_eq : List ℕ → List String → Bool
any_eq cs [] = false
any_eq cs (s ∷ rest) = codes_eq cs (codes s) || any_eq cs rest

-- The names that an operator may write for a capacity model.
abbrev pub names_of : CapacityModel → List String
names_of on_demand = "" ∷ "ondemand" ∷ "on-demand" ∷ []
names_of spot = "spot" ∷ []
names_of reserved = "reserved" ∷ "odcr" ∷ "capacity-block" ∷ []

-- The text is one of them, in capitals or not, and with space around it or not.
abbrev pub is_named : String → CapacityModel → Bool
is_named s m = any_eq (to_lower (trim_space (codes s))) (names_of m)

-- A rung of the cohort for a rung of the file: launchable, of the capacity model that the file names, and in
-- the execution account.
abbrev pub IsFor : Partition → SpecRung → Rung → Type 0
IsFor p s r =
    IsRung r
    × (r.instance_type ≡ s.instance_type)
    × (r.avail_zone ≡ s.avail_zone)
    × (is_named s.capacity_model r.capacity_model ≡ true)
    × (r.account_id ≡ p.execution_account)

capacity_model-is_named :
    (s : String) (m : CapacityModel) → capacity_model_from_string s ≡ some m → is_named s m ≡ true
unfolding capacity_model_from_string
capacity_model-is_named s on_demand h = ground arith
capacity_model-is_named s spot h = ground arith
capacity_model-is_named s reserved h = ground arith

-- The two chains, rung by rung.
abbrev pub Matches : Partition → List SpecRung → List Rung → Type 0
Matches p [] [] = Unit {0}
Matches p (s ∷ ss) (r ∷ rs) = IsFor p s r × Matches p ss rs
Matches p _ _ = ⊥

validate_rung-none :
    (name : String) (j : ℕ) (r : SpecRung)
    → validate_rung name j r ≡ none
    → (r.instance_type ≢ "")
      × (m : CapacityModel) × (capacity_model_from_string r.capacity_model ≡ some m)
unfolding validate_rung
validate_rung-none name j r h = elim (Option-cases (capacity_model_from_string r.capacity_model)) [
  | inl unknown ↦ absurd (ground arith)
  | inr (m, known) ↦ (ground (arith, eq_iff r.instance_type ""), m, known)
]

abbrev HasMatch : Partition → ℕ → List SpecRung → Type 0
HasMatch p j rs = (chain : List Rung) × (chain_from p j rs ≡ ok chain) × Matches p rs chain

longer :
    (p : Partition) (j : ℕ) (r : SpecRung) (rs : List SpecRung) (m : CapacityModel)
    → r.instance_type ≢ ""
    → capacity_model_from_string r.capacity_model ≡ some m
    → HasMatch p (suc j) rs
    → HasMatch p j (r ∷ rs)
unfolding chain_from
longer p j r rs m typed known (chain, q, matches) = (
  cohort_rung p.execution_account r m ∷ chain,
  rw (known, chain_from) (ap (push (cohort_rung p.execution_account r m)) q),
  ((typed, refl, refl, capacity_model-is_named r.capacity_model m known, refl), matches),
)

chain_from-HasMatch :
    (p : Partition) (name : String) (i j : ℕ) (rs : List SpecRung)
    → validate_rungs name i rs ≡ none
    → HasMatch p j rs
unfolding validate_rungs chain_from
chain_from-HasMatch p name i j [] h = ([], refl, tt)
chain_from-HasMatch p name i j (r ∷ rs) h =
    let (typed, m, known) = validate_rung-none name i r (ground arith) in
    longer p j r rs m typed known (chain_from-HasMatch p name (suc i) (suc j) rs (ground arith))

abbrev pub HasChain : Partition → Type 0
HasChain p =
    (first : Rung) × (rest : List Rung) × (cohort_fallback_chain p ≡ ok (first ∷ rest))
    × Matches p p.fallback_chain (first ∷ rest)

validate_chain-HasChain :
    (p : Partition) (cs : List SpecRung)
    → p.fallback_chain ≡ cs
    → validate_chain p.name cs ≡ none
    → HasChain p
unfolding validate_chain cohort_fallback_chain
validate_chain-HasChain p [] e h = absurd (ground arith)
validate_chain-HasChain p (s ∷ ss) e h =
    let (chain, q, matches) = chain_from-HasMatch p p.name 0 0 (s ∷ ss) h in
    first_of chain q matches
  where
    first_of :
        (chain : List Rung)
        → chain_from p 0 (s ∷ ss) ≡ ok chain
        → Matches p (s ∷ ss) chain
        → HasChain p
    first_of [] q m = absurd m
    first_of (r ∷ rs) q m =
        (r, rs, rw e q, subst (λ (cs : List SpecRung). Matches p cs (r ∷ rs)) (sym e) m)

pub validate_partition-HasChain :
    (i : ℕ) (seen : List String) (p : Partition)
    → validate_partition i seen p ≡ none
    → (p.name ≢ "") × (mem_name p.name seen ≡ false) × HasChain p
unfolding validate_partition
validate_partition-HasChain i seen p h = (
  ground (arith, eq_iff p.name ""),
  ground arith,
  validate_chain-HasChain p p.fallback_chain refl (ground arith),
)

validate_from-All :
    (i : ℕ) (seen : List String) (ps : List Partition)
    → validate_from i seen ps ≡ none
    → All (λ p. (p.name ≢ "") × HasChain p) ps
unfolding validate_from
validate_from-All i seen [] h = tt
validate_from-All i seen (p ∷ ps) h =
    let a = validate_partition-HasChain i seen p (ground arith) in
    ((a.0, a.2), validate_from-All (suc i) (p.name ∷ seen) ps (ground arith))

-- Of a partitions file that validates, every partition has a name and a chain that CohortFallbackChain
-- converts without an error: it has a first rung, and is, rung by rung, the one that the operator
-- approved, each with an instance type, of the capacity model that the operator named, and stamped with
-- the partition's account.
pub validate_approves :
    (ps : List Partition) → validate ps ≡ none → All (λ p. (p.name ≢ "") × HasChain p) ps
unfolding validate
validate_approves [] h = tt
validate_approves (p ∷ ps) h = validate_from-All 0 [] (p ∷ ps) h
