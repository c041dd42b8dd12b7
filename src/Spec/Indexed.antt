-- ===== src/Spec/Indexed.antt =====
-- The index of a partitions file that validates loses no partition.
use queuezero.Prelude.{
  ℕ, suc, ◌≡◌, refl, subst, ◌∙◌, String, true, false, none, some, List, [], ◌∷◌, arith, All, ◌==◌,
  eq_iff, eq_refl, Bool-cases, inl, inr,
}
use queuezero.Spec.{Partition, mem_name, validate_from, validate, put, put_all, index, lookup}
use queuezero.Spec.Approved.{validate_partition-HasChain}

lookup-put_self : (p : Partition) (m : List (String × Partition)) → lookup p.name (put p m) ≡ some p
lookup-put_self p [] = ground (arith, eq_refl p.name)
lookup-put_self p ((n, q) ∷ rest) = ground (arith, lookup-put_self p rest)

lookup-put_other :
    (s : String) (p : Partition) (m : List (String × Partition))
    → (p.name == s) ≡ false
    → lookup s (put p m) ≡ lookup s m
lookup-put_other s p [] h = ground arith
lookup-put_other s p ((n, q) ∷ rest) h =
    ground (arith, lookup-put_other s p rest h, eq_iff n p.name, eq_iff n s, eq_iff p.name s)

abbrev OthersThan : String → List Partition → Type 0
OthersThan s ps = All (λ (q : Partition). (q.name == s) ≡ false) ps

lookup-put_all :
    (s : String) (ps : List Partition) (m : List (String × Partition))
    → OthersThan s ps
    → lookup s (put_all ps m) ≡ lookup s m
lookup-put_all s [] m h = refl
lookup-put_all s (p ∷ ps) m h = lookup-put_all s ps (put p m) h.1 ∙ lookup-put_other s p m h.0

-- A name that was seen is that of no later partition.
seen-OthersThan :
    (i : ℕ) (seen : List String) (s : String) (ps : List Partition)
    → validate_from i seen ps ≡ none
    → mem_name s seen ≡ true
    → OthersThan s ps
unfolding validate_from
seen-OthersThan i seen s [] h m = tt
seen-OthersThan i seen s (p ∷ ps) h m =
    let new : mem_name p.name seen ≡ false =
      (validate_partition-HasChain i seen p (ground arith)).1 in
    (differs new, seen-OthersThan (suc i) (p.name ∷ seen) s ps (ground arith) (ground arith))
  where
    differs : mem_name p.name seen ≡ false → (p.name == s) ≡ false
    differs new = elim (Bool-cases (p.name == s)) [
      | inl same ↦
          let e : p.name ≡ s = ground (arith, eq_iff p.name s) in
          let clash : mem_name s seen ≡ false =
            subst (λ (x : String). mem_name x seen ≡ false) e new in
          absurd cc
      | inr other ↦ other
    ]

validate_from-lookup :
    (i : ℕ) (seen : List String) (ps : List Partition) (m : List (String × Partition))
    → validate_from i seen ps ≡ none
    → All (λ (q : Partition). lookup q.name (put_all ps m) ≡ some q) ps
unfolding validate_from
validate_from-lookup i seen [] m h = tt
validate_from-lookup i seen (p ∷ ps) m h = (
  lookup-put_all p.name ps (put p m) (
        seen-OthersThan (suc i) (p.name ∷ seen) p.name ps (ground arith)
          (ground (arith, eq_refl p.name)))
      ∙ lookup-put_self p m,
  validate_from-lookup (suc i) (p.name ∷ seen) ps (put p m) (ground arith),
)

-- Of a partitions file that validates, the index holds every partition under its name: none is
-- overwritten by another.
pub validate-lookup :
    (ps : List Partition)
    → validate ps ≡ none
    → All (λ (q : Partition). lookup q.name (index ps) ≡ some q) ps
unfolding validate index
validate-lookup [] h = tt
validate-lookup (p ∷ ps) h = validate_from-lookup 0 [] (p ∷ ps) [] h
