-- ===== src/Prelude/Counting.antt =====
-- How many items of a list pass a test, and predicates of every item, under a write.
use queuezero.Prelude.{
  ℕ, zero, suc, ◌+◌, ◌≤◌, ◌≡◌, Bool, true, false, some, List, [], ◌∷◌, ◌++◌, arith, length,
  get_elem?, set, All, subst,
}

abbrev pub bit : Bool → ℕ
bit true = 1
bit false = 0

module _ {ℓ} {A : Type ℓ} where
  abbrev pub count_if : (A → Bool) → List A → ℕ
  count_if p [] = 0
  count_if p (x ∷ xs) = bit (p x) + count_if p xs

module _ {ℓ} {A : Type ℓ} where
  pub count_if-set :
      (p : A → Bool) (xs : List A) (i : ℕ) {x : A} (y : A)
      → get_elem? xs i ≡ some x
      → count_if p (set xs i y) + bit (p x) ≡ count_if p xs + bit (p y)
  count_if-set p [] i y h = ground arith
  count_if-set p (x ∷ xs) zero y h = ground arith
  count_if-set p (x ∷ xs) (suc i) y h = omega (arith, count_if-set p xs i y h)

  pub count_if-le-length : (p : A → Bool) (xs : List A) → count_if p xs ≤ length xs
  count_if-le-length p [] = omega arith
  count_if-le-length p (x ∷ xs) = ground (arith, count_if-le-length p xs)

module _ {ℓ κ} {A : Type ℓ} (P : A → Type κ) where
  pub All-set : (xs : List A) (i : ℕ) (y : A) → All P xs → P y → All P (set xs i y)
  All-set [] i y h hy = h
  All-set (x ∷ xs) zero y h hy = (hy, h.1)
  All-set (x ∷ xs) (suc i) y h hy = (h.0, All-set xs i y h.1 hy)

  pub All-get : (xs : List A) (i : ℕ) {x : A} → All P xs → get_elem? xs i ≡ some x → P x
  All-get [] i h e = absurd (ground arith)
  All-get (x ∷ xs) zero {x = y} h e = let q : x ≡ y = cc in subst P q h.0
  All-get (x ∷ xs) (suc i) h e = All-get xs i h.1 e

  pub All-snoc : (xs : List A) (y : A) → All P xs → P y → All P (xs ++ y ∷ [])
  All-snoc [] y h hy = (hy, tt)
  All-snoc (x ∷ xs) y h hy = (h.0, All-snoc xs y h.1 hy)

module _ {ℓ} {A : Type ℓ} where
  -- When every item is counted, every item passes.
  pub count_if-full :
      (p : A → Bool) (xs : List A) → length xs ≤ count_if p xs → All (λ x. p x ≡ true) xs
  count_if-full p [] h = tt
  count_if-full p (x ∷ xs) h =
      (ground (arith, count_if-le-length p xs), count_if-full p xs (ground arith))
