-- ===== src/Spec/Resolve.antt =====
-- internal/spec/load.go: ResolveForNode and leadingPrefix. A map is the list of its entries, in the order
-- in which the loop over it meets them, which Go leaves open.
use queuezero.Prelude.{
  ℕ, ◌≡◌, refl, String, Bool, true, false, ◌||◌, ◌&&◌, Option, none, some, List, [], ◌∷◌, arith,
  ◌==◌, nat_beq, leb, if◌then◌else◌, Bool-cases, inl, inr,
}
use queuezero.Prelude.Texts.{codes, codes_eq, has_prefix}
use queuezero.Spec.{Partition}

abbrev is_digit : ℕ → Bool
is_digit c = leb 48 c && leb c 57

-- strings.TrimRight with a dash.
abbrev keep_dash : ℕ → List ℕ → List ℕ
keep_dash c [] = if nat_beq c 45 then [] else c ∷ []
keep_dash c (d ∷ ds) = c ∷ d ∷ ds

abbrev trim_dashes : List ℕ → List ℕ
trim_dashes [] = []
trim_dashes (c ∷ cs) = keep_dash c (trim_dashes cs)

abbrev has_digit : List ℕ → Bool
has_digit [] = false
has_digit (c ∷ cs) = is_digit c || has_digit cs

abbrev until_digit : List ℕ → List ℕ
until_digit [] = []
until_digit (c ∷ cs) = let rest = c ∷ until_digit cs in if is_digit c then [] else rest

-- leadingPrefix
leading_prefix : List ℕ → List ℕ
leading_prefix cs = if has_digit cs then trim_dashes (until_digit cs) else cs

-- The prefix of the nodes of a partition.
abbrev pub wanted : Partition → String
wanted p = if p.node_prefix == "" then p.name else p.node_prefix

matches_node : String → Partition → Bool
unfolding leading_prefix
matches_node node p =
    codes_eq (codes (wanted p)) (leading_prefix (codes node))
    || has_prefix (codes node) (codes (wanted p))

-- PartitionIndex.ResolveForNode
pub resolve_for_node : List (String × Partition) → String → Option Partition
unfolding matches_node
resolve_for_node [] node = none
resolve_for_node ((n, p) ∷ rest) node =
    if matches_node node p then some p else resolve_for_node rest node

-- The first partition whose prefix the node's name begins with.
abbrev pub first_with_prefix : List (String × Partition) → String → Option Partition
first_with_prefix [] node = none
first_with_prefix ((n, p) ∷ rest) node =
    if has_prefix (codes node) (codes (wanted p)) then some p else first_with_prefix rest node

trim_dashes-has_prefix :
    (cs ds : List ℕ) → has_prefix cs ds ≡ true → has_prefix cs (trim_dashes ds) ≡ true
trim_dashes-has_prefix cs [] h = refl
trim_dashes-has_prefix [] (d ∷ ds) h = absurd cc
trim_dashes-has_prefix (c ∷ cs) (d ∷ ds) h =
    kept (trim_dashes ds) (trim_dashes-has_prefix cs ds (ground arith))
  where
    kept : (es : List ℕ) → has_prefix cs es ≡ true → has_prefix (c ∷ cs) (keep_dash d es) ≡ true
    kept [] k = ground arith
    kept (e ∷ es) k = ground arith

until_digit-has_prefix : (cs : List ℕ) → has_prefix cs (until_digit cs) ≡ true
until_digit-has_prefix [] = refl
until_digit-has_prefix (c ∷ cs) = ground (arith, until_digit-has_prefix cs)

has_prefix_self : (cs : List ℕ) → has_prefix cs cs ≡ true
has_prefix_self [] = refl
has_prefix_self (c ∷ cs) = ground (arith, has_prefix_self cs)

leading_prefix-has_prefix : (cs : List ℕ) → has_prefix cs (leading_prefix cs) ≡ true
unfolding leading_prefix
leading_prefix-has_prefix cs = elim (Bool-cases (has_digit cs)) [
  | inl d ↦ rw d (trim_dashes-has_prefix cs (until_digit cs) (until_digit-has_prefix cs))
  | inr d ↦ rw d (has_prefix_self cs)
]

codes_eq-has_prefix :
    (cs ds es : List ℕ) → codes_eq ds es ≡ true → has_prefix cs es ≡ true → has_prefix cs ds ≡ true
codes_eq-has_prefix cs [] es q h = refl
codes_eq-has_prefix cs (d ∷ ds) [] q h = absurd cc
codes_eq-has_prefix [] (d ∷ ds) (e ∷ es) q h = absurd cc
codes_eq-has_prefix (c ∷ cs) (d ∷ ds) (e ∷ es) q h = ground (arith, codes_eq-has_prefix cs ds es)

matches_node-eq :
    (node : String) (p : Partition)
    → matches_node node p ≡ has_prefix (codes node) (codes (wanted p))
unfolding matches_node
matches_node-eq node p =
    elim (Bool-cases (codes_eq (codes (wanted p)) (leading_prefix (codes node)))) [
      | inl same ↦
          let begins : has_prefix (codes node) (codes (wanted p)) ≡ true =
            codes_eq-has_prefix (codes node) (codes (wanted p)) (leading_prefix (codes node)) same
              (leading_prefix-has_prefix (codes node)) in
          rw (same, begins)
      | inr other ↦ rw other
    ]

-- ResolveForNode takes the first partition that the loop meets whose prefix the node's name begins with:
-- the leading prefix of the name, which is to be matched first, makes no difference.
pub resolve_for_node-eq :
    (m : List (String × Partition)) (node : String)
    → resolve_for_node m node ≡ first_with_prefix m node
unfolding resolve_for_node
resolve_for_node-eq [] node = refl
resolve_for_node-eq ((n, p) ∷ rest) node =
    rw (matches_node-eq node p, resolve_for_node-eq rest node)
