-- ===== src/Prelude/Texts/Laws.antt =====
-- Laws of texts as lists of codes.
use queuezero.Prelude.Tests.{nat_beq, if◌then◌else◌}
use native.Mathlib.Omega.{arith}
use mathlib.Core.Option.{none, some}
use Prim.Native.Char.{code}
use Prim.Native.Nat.{ℕ}
use Prim.Native.String.{String, ◌++◌ as ◌<>◌}
use mathlib.Core.Path.{◌≡◌, refl, ap, ◌∙◌}
use mathlib.Core.Bool.{Bool, false}
use mathlib.Core.List.{List, [], ◌∷◌, ◌++◌}
use text.Mathlib.TextLemmas.{cons-append, nil-append}
use queuezero.Prelude.Lists.{All}
use queuezero.Prelude.Texts.{codes, is_space, trim_start, trim_end, trim_space, split, cut}

pub codes-append : (s t : String) → codes (s <> t) ≡ codes s ++ codes t
codes-append String.[] t = ap codes (nil-append t)
codes-append (String.◌∷◌ c s) t =
    ap codes (cons-append c s t) ∙ ap (λ (cs : List ℕ). code c ∷ cs) (codes-append s t)

-- A text without space.
abbrev pub IsSolid : List ℕ → Type 0
IsSolid = All (λ c. is_space c ≡ false)

trim_end-IsSolid : (cs : List ℕ) → IsSolid cs → trim_end cs ≡ cs
trim_end-IsSolid [] h = refl
trim_end-IsSolid (c ∷ cs) h = rw (h.0, trim_end-IsSolid cs h.1) refl

pub trim_space-IsSolid : (cs : List ℕ) → IsSolid cs → trim_space cs ≡ cs
trim_space-IsSolid [] h = refl
trim_space-IsSolid (c ∷ cs) h =
    ap (λ (b : Bool). trim_end (if b then trim_start cs else c ∷ cs)) h.0
    ∙ trim_end-IsSolid (c ∷ cs) h

-- A text that has not the code.
abbrev pub Without : ℕ → List ℕ → Type 0
Without c = All (λ d. nat_beq d c ≡ false)

pub split-Without : (sep : ℕ) (w : List ℕ) → Without sep w → split sep w ≡ w ∷ []
split-Without sep [] h = refl
split-Without sep (c ∷ cs) h = rw (h.0, split-Without sep cs h.1) refl

pub split-append :
    (sep : ℕ) (w rest : List ℕ) → Without sep w → split sep (w ++ sep ∷ rest) ≡ w ∷ split sep rest
split-append sep [] rest h = ground arith
split-append sep (c ∷ cs) rest h = rw (h.0, split-append sep cs rest h.1) refl

pub cut-append : (sep : ℕ) (d p : List ℕ) → Without sep d → cut sep (d ++ sep ∷ p) ≡ some (d, p)
cut-append sep [] p h = ground arith
cut-append sep (c ∷ cs) p h = rw (h.0, cut-append sep cs p h.1) refl

pub All-append : (P : ℕ → Type 0) (a b : List ℕ) → All P a → All P b → All P (a ++ b)
All-append P [] b h k = k
All-append P (c ∷ cs) b h k = (h.0, All-append P cs b h.1 k)

pub cut-Without : (sep : ℕ) (w : List ℕ) → Without sep w → cut sep w ≡ none
cut-Without sep [] h = refl
cut-Without sep (c ∷ cs) h = rw (h.0, cut-Without sep cs h.1) refl
