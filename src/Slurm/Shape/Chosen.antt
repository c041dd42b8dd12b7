-- ===== src/Slurm/Shape/Chosen.antt =====
-- The cohorts that resume asks for.
use queuezero.Prelude.{
  suc, ◌≡◌, refl, ap, subst, not, nat_beq, String, Bool, true, false, ◌&&◌, List, [], ◌∷◌, arith,
  Result, ok, err, length,
}
use queuezero.Cohort.Entity.{EntityIntent, BuildError}
use queuezero.Cohort.Build.{
  PhaseBudget, Cohort, new_serial_cohort, new_mpi_cohort, new_partial_cohort,
}
use queuezero.Cohort.Build.Stored.{
  Stores, new_serial_cohort-Stores, new_mpi_cohort-Stores, new_partial_cohort-Stores,
}
use queuezero.Cohort.Build.Viability.{IsViable, serial, mpi, partial, Built-IsViable}
use queuezero.Slurm.Shape.{shaped, of_many, build_cohort}

-- A viable cohort of all the intents that asks for all of them, with the Assembler where `asm` says, and
-- only where the cohort may assemble.
pub record IsWhole (is : List EntityIntent) (asm : Bool) (c : Cohort) (b : Bool) : Type 0 where
  pub viable : IsViable c
  pub members : c.members ≡ is
  pub min_viable : c.min_viable ≡ length is
  pub assembler : b ≡ asm
  pub allowed : (c.no_assembly && b) ≡ false

shaped-IsWhole :
    (is : List EntityIntent) (asm na : Bool) (r : Result BuildError Cohort) (c : Cohort) (b : Bool)
    → ((d : Cohort) → r ≡ ok d → IsViable d × Stores is (length is) na d)
    → (na && asm) ≡ false
    → shaped asm r ≡ ok (c, b)
    → IsWhole is asm c b
shaped-IsWhole is asm na (err e) c b h n q = absurd (ground arith)
shaped-IsWhole is asm na (ok d) c b h n q =
    let e : d ≡ c = ground arith in
    let (viable, stores) = h c (ap ok e) in
    let a : b ≡ asm = ground arith in
    record {
      viable = viable;
      members = stores.0;
      min_viable = stores.1;
      assembler = a;
      allowed = rw (stores.2, a) n;
    }

of_many-IsWhole :
    (collective asm : Bool) (id : String) (is : List EntityIntent) (b : PhaseBudget) (c : Cohort)
    (x : Bool)
    → of_many collective asm id is b ≡ ok (c, x)
    → IsWhole is collective c x
of_many-IsWhole true false id is b c x h = absurd (ground arith)
of_many-IsWhole true true id is b c x h =
    shaped-IsWhole is true false (new_mpi_cohort id is b) c x
      (λ d q. ((Built-IsViable d (mpi id is b q)).0, new_mpi_cohort-Stores id is b d q)) refl h
of_many-IsWhole false asm id is b c x h =
    shaped-IsWhole is false true (new_partial_cohort id is b (length is) false) c x
      (λ d q. (
        (Built-IsViable d (partial id is b (length is) false q)).0,
        new_partial_cohort-Stores id is b (length is) false d q,
      ))
      refl h

and_true : (k : Bool) → k ≡ k && true
and_true true = refl
and_true false = refl

and_false : (k : Bool) → false ≡ k && false
and_false true = refl
and_false false = refl

-- Whatever shape resume chooses, the cohort is viable, has all the nodes as members, and its gate asks
-- for all of them; it is reconciled with the Assembler exactly where the partition is collective and
-- there are several nodes; and a cohort that may not assemble never gets one.
pub build_cohort-IsWhole :
    (collective asm : Bool) (id : String) (is : List EntityIntent) (b : PhaseBudget) (c : Cohort)
    (x : Bool)
    → build_cohort collective asm id is b ≡ ok (c, x)
    → IsWhole is (collective && not (nat_beq (length is) 1)) c x
unfolding build_cohort
build_cohort-IsWhole collective asm id [] b c x h =
    subst (λ (z : Bool). IsWhole [] z c x) (and_true collective)
      (of_many-IsWhole collective asm id [] b c x h)
build_cohort-IsWhole collective asm id (i ∷ []) b c x h =
    subst (λ (z : Bool). IsWhole (i ∷ []) z c x) (and_false collective)
      (shaped-IsWhole (i ∷ []) false false (new_serial_cohort id i b) c x
        (λ d q. ((Built-IsViable d (serial id i b q)).0, new_serial_cohort-Stores id i b d q)) refl
        h)
build_cohort-IsWhole collective asm id (i ∷ j ∷ is) b c x h =
    subst (λ (z : Bool). IsWhole (i ∷ j ∷ is) z c x) (several collective)
      (of_many-IsWhole collective asm id (i ∷ j ∷ is) b c x h)
  where
    several : (k : Bool) → k ≡ k && not (nat_beq (suc (suc (length is))) 1)
    several true = ground arith
    several false = ground arith
