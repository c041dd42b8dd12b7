-- ===== src/Slurm/Scontrol/Ranges.antt =====
-- expandHostlist on one bracket: the names of all numbers of its ranges, in order.
use queuezero.Prelude.{
  pos, ◌≡◌, refl, ◌∙◌, ap, ◌≤◌, ◌<◌, ℕ, zero, suc, ◌+◌, ◌-◌, false, Option, List, [], ◌∷◌, ◌++◌,
  map, nat_beq, Result, ok, length, All, arith,
}
use queuezero.Prelude.Texts.{is_space, split}
use queuezero.Prelude.Texts.Laws.{
  IsSolid, trim_space-IsSolid, Without, split-Without, split-append, cut-append, cut-Without,
  All-append,
}
use queuezero.Slurm.Scontrol.{
  Text, HostlistError, max_int, padded, parse_range, halves_range, range_of, index_of, numbered,
  names_in, names_of, expand_parts, on_close, on_open, expand_hostlist,
}
use queuezero.Slurm.Scontrol.Numbers.{IsDigit, padded-IsDigit, digits-Without, atoi-padded}

-- What stands between the commas of a bracket: a range, with the width of each bound, or a number.
pub data Part : Type 0 where
  span : ℕ → ℕ → ℕ → ℕ → Part
  single : ℕ → ℕ → Part

abbrev pub print_part : Part → Text
print_part (span w lo v hi) = padded w lo ++ 45 ∷ padded v hi
print_part (single w n) = padded w n

abbrev pub print_parts : Part → List Part → Text
print_parts p [] = print_part p
print_parts p (q ∷ qs) = print_part p ++ 44 ∷ print_parts q qs

-- The bounds are ints, and an upper bound is not the greatest.
abbrev pub IsBounded : Part → Type 0
IsBounded (span w lo v hi) = (lo ≤ max_int) × (hi < max_int)
IsBounded (single w n) = n < max_int

abbrev pub count_from : ℕ → ℕ → List ℕ
count_from lo zero = []
count_from lo (suc count) = lo ∷ count_from (lo + 1) count

-- The numbers from `lo` to `hi`, with both.
abbrev pub numbers : ℕ → ℕ → List ℕ
numbers lo hi = count_from lo ((hi + 1) - lo)

module _ (prefix suffix : Text) where
  abbrev pub name_of : ℕ → ℕ → Text
  name_of width n = prefix ++ (padded width n ++ suffix)

  -- The names of a part: the width is the one in which the low bound is written.
  abbrev pub names_of_part : Part → List Text
  names_of_part (span w lo v hi) = map (name_of (length (padded w lo))) (numbers lo hi)
  names_of_part (single w n) = map (name_of (length (padded w n))) (numbers n n)

  abbrev pub names_of_parts : List Part → List Text
  names_of_parts [] = []
  names_of_parts (p ∷ ps) = names_of_part p ++ names_of_parts ps

  numbered-map :
      (width lo count : ℕ)
      → numbered prefix suffix width lo count ≡ map (name_of width) (count_from lo count)
  numbered-map width lo zero = refl
  numbered-map width lo (suc count) =
      ap (λ (ns : List Text). name_of width lo ∷ ns) (numbered-map width (lo + 1) count)

  digit-IsSolid : (cs : Text) → All IsDigit cs → IsSolid cs
  digit-IsSolid [] h = tt
  digit-IsSolid (c ∷ cs) h = let low : 48 ≤ c = h.0.0 in (ground arith, digit-IsSolid cs h.1)

  digits-Without-high : (sep : ℕ) (cs : Text) → 57 < sep → All IsDigit cs → Without sep cs
  digits-Without-high sep [] h k = tt
  digits-Without-high sep (c ∷ cs) h k =
      let low : c ≤ 57 = k.0.1 in (ground arith, digits-Without-high sep cs h k.1)

  part-IsSolid : (p : Part) → IsSolid (print_part p)
  part-IsSolid (span w lo v hi) =
      All-append (λ c. is_space c ≡ false) (padded w lo) (45 ∷ padded v hi)
        (digit-IsSolid _ (padded-IsDigit w lo)) (refl, digit-IsSolid _ (padded-IsDigit v hi))
  part-IsSolid (single w n) = digit-IsSolid _ (padded-IsDigit w n)

  part-Without-comma : (p : Part) → Without 44 (print_part p)
  part-Without-comma (span w lo v hi) =
      All-append (λ c. nat_beq c 44 ≡ false) (padded w lo) (45 ∷ padded v hi)
        (digits-Without 44 _ (omega arith) (padded-IsDigit w lo))
        (refl, digits-Without 44 _ (omega arith) (padded-IsDigit v hi))
  part-Without-comma (single w n) = digits-Without 44 _ (omega arith) (padded-IsDigit w n)

  part-Without-close : (p : Part) → Without 93 (print_part p)
  part-Without-close (span w lo v hi) =
      All-append (λ c. nat_beq c 93 ≡ false) (padded w lo) (45 ∷ padded v hi)
        (digits-Without-high 93 _ (omega arith) (padded-IsDigit w lo))
        (refl, digits-Without-high 93 _ (omega arith) (padded-IsDigit v hi))
  part-Without-close (single w n) = digits-Without-high 93 _ (omega arith) (padded-IsDigit w n)

  abbrev named : List Text → Result HostlistError (List Text)
  named ns = ok ns

  numbers-named :
      (width lo hi : ℕ)
      → hi < max_int
      → names_in prefix suffix width (pos lo) (pos hi) ≡ ok (map (name_of width) (numbers lo hi))
  unfolding names_in
  numbers-named width lo hi h =
      let finite : nat_beq hi max_int ≡ false = ground arith in
      rw finite (ap named (numbered-map width lo ((hi + 1) - lo)))

  part-named :
      (p : Part)
      → IsBounded p
      → names_of prefix suffix (parse_range (print_part p)) ≡ ok (names_of_part p)
  unfolding parse_range halves_range range_of index_of
  part-named (span w lo v hi) h =
      let fits : hi ≤ max_int = omega (arith, h.1) in
      ap
        (λ (o : Option (Text × Text)).
          names_of prefix suffix (halves_range (print_part (span w lo v hi)) o))
        (cut-append 45 (padded w lo) (padded v hi)
          (digits-Without 45 _ (omega arith) (padded-IsDigit w lo)))
      ∙ rw (atoi-padded w lo h.0, atoi-padded v hi fits)
          (numbers-named (length (padded w lo)) lo hi h.1)
  part-named (single w n) h =
      let fits : n ≤ max_int = omega (arith, h) in
      ap
        (λ (o : Option (Text × Text)).
          names_of prefix suffix (halves_range (print_part (single w n)) o))
        (cut-Without 45 (padded w n) (digits-Without 45 _ (omega arith) (padded-IsDigit w n)))
      ∙ rw (atoi-padded w n fits) (numbers-named (length (padded w n)) n n h)

  parts-named :
      (ps : List Part)
      → All IsBounded ps
      → expand_parts prefix suffix (map print_part ps) ≡ ok (names_of_parts ps)
  unfolding expand_parts
  parts-named [] h = refl
  parts-named (p ∷ ps) h =
      rw (trim_space-IsSolid (print_part p) (part-IsSolid p), part-named p h.0, parts-named ps h.1)
        refl

  parts-split : (p : Part) (ps : List Part) → split 44 (print_parts p ps) ≡ map print_part (p ∷ ps)
  parts-split p [] = split-Without 44 (print_part p) (part-Without-comma p)
  parts-split p (q ∷ qs) =
      split-append 44 (print_part p) (print_parts q qs) (part-Without-comma p)
      ∙ ap (λ (ts : List Text). print_part p ∷ ts) (parts-split q qs)

  parts-All :
      (P : ℕ → Type 0)
      → P 44
      → ((p : Part) → All P (print_part p))
      → (p : Part) (ps : List Part) → All P (print_parts p ps)
  parts-All P c h p [] = h p
  parts-All P c h p (q ∷ qs) =
      All-append P (print_part p) (44 ∷ print_parts q qs) (h p) (c, parts-All P c h q qs)

  -- The hostlist `prefix[parts]suffix`.
  abbrev pub print_hostlist : Part → List Part → Text
  print_hostlist p ps = prefix ++ 91 ∷ (print_parts p ps ++ 93 ∷ suffix)

  -- A hostlist `prefix[a-b,c,...]suffix`, with no space in it and no bracket in its prefix, expands to
  -- the prefix, the number and the suffix, for all the numbers of the ranges in order, each in the width in which the
  -- low bound of its range is written, with zeros in front. An upper bound is below the greatest
  -- int. What stands behind the first closing bracket, brackets too, is a part of every name.
  pub expand_hostlist-ranges :
      (p : Part) (ps : List Part)
      → All IsBounded (p ∷ ps)
      → IsSolid prefix
      → Without 91 prefix
      → Without 93 prefix
      → IsSolid suffix
      → expand_hostlist (print_hostlist p ps) ≡ ok (names_of_parts (p ∷ ps))
  unfolding expand_hostlist on_open on_close
  expand_hostlist-ranges p ps bounded solid no_open no_close solid' =
      let whole : IsSolid (print_hostlist p ps) =
        All-append (λ c. is_space c ≡ false) prefix (91 ∷ (print_parts p ps ++ 93 ∷ suffix)) solid
          (
            refl,
            All-append (λ c. is_space c ≡ false) (print_parts p ps) (93 ∷ suffix)
                (parts-All (λ c. is_space c ≡ false) refl part-IsSolid p ps) (refl, solid'),
          ) in
      rw
        (
          trim_space-IsSolid (print_hostlist p ps) whole,
          cut-append 91 prefix (print_parts p ps ++ 93 ∷ suffix) no_open,
          cut-Without 93 prefix no_close,
          cut-append 93 (print_parts p ps) suffix
              (parts-All (λ c. nat_beq c 93 ≡ false) refl part-Without-close p ps),
          parts-split p ps,
        )
        (parts-named (p ∷ ps) bounded)
