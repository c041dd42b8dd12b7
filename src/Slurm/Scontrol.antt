-- ===== src/Slurm/Scontrol.antt =====
-- internal/slurm/scontrol.go. A text is the list of its codes, and is ASCII. Running `scontrol` is a
-- port: the arguments, and the output or the text of an error. LookPath is the field `available`. A
-- number is one of Go's 64-bit int.
pub mod Numbers
pub mod Ranges
pub mod Commands
pub mod Examples
use Prim.Native.Nat.{◌%◌}
use queuezero.Prelude.{
  ℤ, pos, negsuc, ℕ, zero, suc, ◌+◌, ◌-◌, ◌*◌, ◌/◌, ◌^◌, Bool, true, false, ◌&&◌, Option, none,
  some, List, [], ◌∷◌, ◌++◌, map, ltb, leb, nat_beq, if◌then◌else◌, Result, ok, err, length,
}
use queuezero.Prelude.Texts.{decimal, trim_space, split, cut}

abbrev pub Text : Type 0
Text = List ℕ

pub data HostlistError : Type 0 where
  malformed bad_low bad_high bad_index : Text → HostlistError
  endless : HostlistError

abbrev pub is_digit : ℕ → Bool
is_digit c = leb 48 c && leb c 57

-- The value of a text of digits.
abbrev pub scan : Text → ℕ → Option ℕ
scan [] n = some n
scan (c ∷ cs) n = let rest = scan cs (n * 10 + (c - 48)) in if is_digit c then rest else none

abbrev digits_of : Text → Option ℕ
digits_of [] = none
digits_of (c ∷ cs) = scan (c ∷ cs) 0

abbrev pub max_int : ℕ
max_int = 2 ^ 63 - 1

abbrev plus_in_range : Option ℕ → Option ℤ
plus_in_range none = none
plus_in_range (some n) = if leb n max_int then some (pos n) else none

abbrev minus_in_range : Option ℕ → Option ℤ
minus_in_range none = none
minus_in_range (some zero) = some (pos 0)
minus_in_range (some (suc n)) = if leb n max_int then some (negsuc n) else none

-- strconv.Atoi, with none for its error.
unfoldable pub atoi : Text → Option ℤ
atoi [] = none
atoi (c ∷ cs) =
    if nat_beq c 43
    then plus_in_range (digits_of cs)
    else if nat_beq c 45
    then minus_in_range (digits_of cs)
    else plus_in_range (digits_of (c ∷ cs))

abbrev pub zeros : ℕ → Text
zeros zero = []
zeros (suc k) = 48 ∷ zeros k

-- fmt.Sprintf("%0*d", width, n)
abbrev pub padded : ℕ → ℕ → Text
padded width n = zeros (width - length (decimal n)) ++ decimal n

-- The bounds and the width of a range. A low bound, or an index, has no sign `-`.
pub record Range : Type 0 where
  pub lo : ℤ
  pub hi : ℤ
  pub width : ℕ

range_of : Text → Text → Option ℤ → Option ℤ → Result HostlistError Range
range_of lo_text hi_text none hi = err (HostlistError.bad_low lo_text)
range_of lo_text hi_text (some lo) none = err (HostlistError.bad_high hi_text)
range_of lo_text hi_text (some lo) (some hi) =
    ok (record { lo = lo; hi = hi; width = length lo_text })

index_of : Text → Option ℤ → Result HostlistError Range
index_of part none = err (HostlistError.bad_index part)
index_of part (some n) = ok (record { lo = n; hi = n; width = length part })

halves_range : Text → Option (Text × Text) → Result HostlistError Range
unfolding range_of index_of
halves_range part none = index_of part (atoi part)
halves_range part (some (lo, hi)) = range_of lo hi (atoi lo) (atoi hi)

-- parseRange
pub parse_range : Text → Result HostlistError Range
unfolding halves_range
parse_range part = halves_range part (cut 45 part)

-- The names of `count` numbers from `lo` on.
abbrev pub numbered : Text → Text → ℕ → ℕ → ℕ → List Text
numbered prefix suffix width lo zero = []
numbered prefix suffix width lo (suc count) =
    (prefix ++ (padded width lo ++ suffix)) ∷ numbered prefix suffix width (lo + 1) count

-- The loop over the numbers of a range; to the greatest int it does not end, as i++ wraps round. A low
-- bound has no sign `-`, which parseRange takes for the dash, so the last clause is not reached.
names_in : Text → Text → ℕ → ℤ → ℤ → Result HostlistError (List Text)
names_in prefix suffix width (pos lo) (pos hi) =
    if nat_beq hi max_int
    then err HostlistError.endless
    else ok (numbered prefix suffix width lo ((hi + 1) - lo))
names_in prefix suffix width (pos lo) (negsuc hi) = ok []
names_in prefix suffix width (negsuc lo) hi = ok []

abbrev pub and_more :
    Result HostlistError (List Text) → List Text → Result HostlistError (List Text)
and_more (ok more) names = ok (names ++ more)
and_more (err e) names = err e

abbrev on_names :
    Result HostlistError (List Text)
    → Result HostlistError (List Text)
    → Result HostlistError (List Text)
on_names (err e) more = err e
on_names (ok names) more = and_more more names

abbrev names_of : Text → Text → Result HostlistError Range → Result HostlistError (List Text)
names_of prefix suffix (err e) = err e
names_of prefix suffix (ok r) = names_in prefix suffix r.width r.lo r.hi

-- The loop over the parts of the range: the first error ends it.
pub expand_parts : Text → Text → List Text → Result HostlistError (List Text)
unfolding names_in
expand_parts prefix suffix [] = ok []
expand_parts prefix suffix (p ∷ ps) =
    on_names (names_of prefix suffix (parse_range (trim_space p))) (expand_parts prefix suffix ps)

-- The names between separators, those that are empty left out.
abbrev pub keep_names : List Text → List Text
keep_names [] = []
keep_names ([] ∷ ps) = keep_names ps
keep_names ((c ∷ cs) ∷ ps) = (c ∷ cs) ∷ keep_names ps

abbrev pub names_at : ℕ → Text → List Text
names_at sep cs = keep_names (map trim_space (split sep cs))

-- The closing bracket is sought in the whole text, and is to stand behind the opening one.
on_close :
    Text → Text → Option (Text × Text) → Option (Text × Text) → Result HostlistError (List Text)
unfolding expand_parts
on_close whole prefix (some early) spec = err (HostlistError.malformed whole)
on_close whole prefix none none = err (HostlistError.malformed whole)
on_close whole prefix none (some (spec, suffix)) = expand_parts prefix suffix (split 44 spec)

on_open : Text → Option (Text × Text) → Result HostlistError (List Text)
unfolding on_close
on_open whole none = ok (names_at 44 whole)
on_open whole (some (prefix, rest)) = on_close whole prefix (cut 93 prefix) (cut 93 rest)

-- expandHostlist
pub expand_hostlist : Text → Result HostlistError (List Text)
unfolding on_open
expand_hostlist hostlist = let h = trim_space hostlist in on_open h (cut 91 h)
