-- ===== src/Slurm/Scontrol/Numbers.antt =====
-- strconv.Atoi reads what fmt.Sprintf("%0*d") writes.
use Prim.Native.Nat.{◌%◌}
use queuezero.Prelude.{
  pos, ◌≡◌, ◌≢◌, refl, ◌∙◌, ap, ◌≤◌, ◌<◌, ℕ, zero, suc, ◌+◌, ◌-◌, ◌/◌, false, some, [], ◌∷◌, ◌++◌,
  ltb, nat_beq, length, All, arith, Bool-cases, inl, inr, le→leb,
}
use queuezero.Prelude.Texts.Laws.{All-append, Without}
use queuezero.Slurm.Scontrol.{Text, scan, max_int, plus_in_range, atoi, zeros, padded}
use queuezero.Prelude.Texts.{emit, decimal}

abbrev pub IsDigit : ℕ → Type 0
IsDigit c = (48 ≤ c) × (c ≤ 57)

-- Reading the last digit of `n` after the digits before it gives `n`.
scan_last : (n : ℕ) (out : Text) → scan ((48 + n % 10) ∷ out) (n / 10) ≡ scan out n
scan_last n out = ground arith

scan-emit : (fuel n : ℕ) (out : Text) → n < fuel → scan (emit fuel n out) 0 ≡ scan out n
scan-emit zero n out h = absurd (omega arith)
scan-emit (suc fuel) n out h = elim (Bool-cases (ltb n 10)) [
  | inl small ↦ rw small (ground arith)
  | inr big ↦
      rw big (scan-emit fuel (n / 10) ((48 + n % 10) ∷ out) (ground arith) ∙ scan_last n out)
]

emit-IsDigit :
    (fuel n : ℕ) (out : Text) → n < fuel → All IsDigit out → All IsDigit (emit fuel n out)
emit-IsDigit zero n out h k = k
emit-IsDigit (suc fuel) n out h k = elim (Bool-cases (ltb n 10)) [
  | inl small ↦ rw small ((omega arith, ground arith), k)
  | inr big ↦ rw big (
      emit-IsDigit fuel (n / 10) ((48 + n % 10) ∷ out) (ground arith)
        ((omega arith, omega arith), k))
]

zeros-IsDigit : (k : ℕ) → All IsDigit (zeros k)
zeros-IsDigit zero = tt
zeros-IsDigit (suc k) = ((omega arith, omega arith), zeros-IsDigit k)

pub padded-IsDigit : (width n : ℕ) → All IsDigit (padded width n)
unfolding decimal
padded-IsDigit width n =
    All-append IsDigit (zeros (width - length (decimal n))) (decimal n) (zeros-IsDigit _)
      (emit-IsDigit (suc n) n [] (omega arith) tt)

scan-zeros : (k : ℕ) (out : Text) → scan (zeros k ++ out) 0 ≡ scan out 0
scan-zeros zero out = refl
scan-zeros (suc k) out = scan-zeros k out

scan-padded : (width n : ℕ) → scan (padded width n) 0 ≡ some n
unfolding decimal
scan-padded width n =
    scan-zeros (width - length (decimal n)) (decimal n) ∙ scan-emit (suc n) n [] (omega arith)

pub digits-Without : (c : ℕ) (cs : Text) → c < 48 → All IsDigit cs → Without c cs
digits-Without c [] h k = tt
digits-Without c (d ∷ ds) h k =
    let low : 48 ≤ d = k.0.0 in (ground arith, digits-Without c ds h k.1)

-- A text of digits that has a value is read as that value.
atoi-digits :
    (cs : Text) (n : ℕ)
    → All IsDigit cs
    → scan cs 0 ≡ some n
    → n ≤ max_int
    → cs ≢ []
    → atoi cs ≡ some (pos n)
unfolding atoi
atoi-digits [] n d e h k = absurd (k refl)
atoi-digits (c ∷ cs) n d e h k =
    let low : 48 ≤ c = d.0.0 in
    let p : nat_beq c 43 ≡ false = ground arith in
    let m : nat_beq c 45 ≡ false = ground arith in
    rw (p, m) (ap plus_in_range e ∙ (rw (le→leb n max_int h) refl))

emit-length : (fuel n : ℕ) (out : Text) → n < fuel → 0 < length (emit fuel n out)
emit-length zero n out h = absurd (omega arith)
emit-length (suc fuel) n out h = elim (Bool-cases (ltb n 10)) [
  | inl small ↦ rw small (omega arith)
  | inr big ↦ rw big (emit-length fuel (n / 10) _ (ground arith))
]

zeros-length : (k : ℕ) (out : Text) → 0 < length out → zeros k ++ out ≢ []
zeros-length zero [] h e = absurd (omega arith)
zeros-length zero (c ∷ cs) h e = absurd cc
zeros-length (suc k) out h e = absurd cc

-- A number is read back from its print, whatever the width.
pub atoi-padded : (width n : ℕ) → n ≤ max_int → atoi (padded width n) ≡ some (pos n)
unfolding decimal
atoi-padded width n h =
    atoi-digits (padded width n) n (padded-IsDigit width n) (scan-padded width n) h (
      zeros-length (width - length (decimal n)) (decimal n)
        (emit-length (suc n) n [] (omega arith)))
