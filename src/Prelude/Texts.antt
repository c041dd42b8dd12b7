-- ===== src/Prelude/Texts.antt =====
-- Text as the list of its codes: strings.HasPrefix, strings.Split and a cut at the first code; for ASCII,
-- strings.ToLower and strings.TrimSpace; and a number in decimal.
pub mod Laws
use Prim.Native.Char.{code}
use Prim.Native.Nat.{ℕ, zero, suc, ◌+◌, ◌/◌, ◌%◌}
use Prim.Native.String.{String}
use mathlib.Core.Bool.{Bool, true, false, ◌&&◌, ◌||◌}
use mathlib.Core.Option.{Option, none, some}
use mathlib.Core.List.{List, [], ◌∷◌, map}
use queuezero.Prelude.Tests.{ltb, leb, nat_beq, if◌then◌else◌}

abbrev pub codes : String → List ℕ
codes String.[] = []
codes (String.◌∷◌ c s) = code c ∷ codes s

abbrev pub codes_eq : List ℕ → List ℕ → Bool
codes_eq [] [] = true
codes_eq (x ∷ xs) (y ∷ ys) = nat_beq x y && codes_eq xs ys
codes_eq _ _ = false

-- strings.HasPrefix
abbrev pub has_prefix : List ℕ → List ℕ → Bool
has_prefix cs [] = true
has_prefix [] (p ∷ ps) = false
has_prefix (c ∷ cs) (p ∷ ps) = nat_beq c p && has_prefix cs ps

abbrev pub lower : ℕ → ℕ
lower c = if leb 65 c && leb c 90 then c + 32 else c

abbrev pub to_lower : List ℕ → List ℕ
to_lower cs = map lower cs

abbrev pub is_space : ℕ → Bool
is_space c = nat_beq c 32 || (leb 9 c && leb c 13)

abbrev trim_start : List ℕ → List ℕ
trim_start [] = []
trim_start (c ∷ cs) = let rest = trim_start cs in if is_space c then rest else c ∷ cs

abbrev keep : Bool → ℕ → List ℕ → List ℕ
keep true c [] = []
keep true c (d ∷ ds) = c ∷ d ∷ ds
keep false c ds = c ∷ ds

abbrev trim_end : List ℕ → List ℕ
trim_end [] = []
trim_end (c ∷ cs) = keep (is_space c) c (trim_end cs)

abbrev pub trim_space : List ℕ → List ℕ
trim_space cs = trim_end (trim_start cs)

-- strings.Split at a code.
abbrev pub onto_first : ℕ → List (List ℕ) → List (List ℕ)
onto_first c [] = (c ∷ []) ∷ []
onto_first c (w ∷ ws) = (c ∷ w) ∷ ws

abbrev pub split : ℕ → List ℕ → List (List ℕ)
split sep [] = [] ∷ []
split sep (c ∷ cs) =
    let more = split sep cs in if nat_beq c sep then [] ∷ more else onto_first c more

-- What stands before and after the first code `sep`, as strings.IndexByte finds it.
abbrev before_more : ℕ → Option (List ℕ × List ℕ) → Option (List ℕ × List ℕ)
before_more c none = none
before_more c (some (a, b)) = some (c ∷ a, b)

abbrev pub cut : ℕ → List ℕ → Option (List ℕ × List ℕ)
cut sep [] = none
cut sep (c ∷ cs) =
    let more = before_more c (cut sep cs) in if nat_beq c sep then some ([], cs) else more

-- The decimal digits of a number, by fuel; a number has no more digits than it counts.
abbrev pub emit : ℕ → ℕ → List ℕ → List ℕ
emit zero n out = out
emit (suc fuel) n out =
    let rest = emit fuel (n / 10) ((48 + n % 10) ∷ out) in if ltb n 10 then (48 + n) ∷ out else rest

unfoldable pub decimal : ℕ → List ℕ
decimal n = emit (suc n) n []
