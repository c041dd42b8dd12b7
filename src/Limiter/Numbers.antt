-- ===== src/Limiter/Numbers.antt =====
-- What the limiter does with a float64: its constants, arithmetic, one comparison, and the conversions
-- from and to durations. The laws are those of IEEE numbers that are not NaN; whole numbers meet them.
use queuezero.Prelude.{ℕ, ◌≡◌, Bool, true, false, if◌then◌else◌}

pub record Float {ℓ} (F : Type ℓ) : Type ℓ where
  pub nought : F
  pub one : F
  pub tenth : F
  pub le : F → F → Bool
  pub add : F → F → F
  pub sub : F → F → F
  pub mul : F → F → F
  pub div : F → F → F
  pub of_nat : ℕ → F
  pub seconds : ℕ → F
  pub nanoseconds : F → ℕ

infix 4 ◌≼◌
abbrev pub ◌≼◌ {ℓ} : {F : Type ℓ} ⦃f : Float F⦄ → F → F → Type 0
◌≼◌ ⦃f⦄ x y = f.le x y ≡ true

-- What the code writes as `x < y`.
abbrev pub below {ℓ} : {F : Type ℓ} ⦃f : Float F⦄ → F → F → Bool
below ⦃f⦄ x y = if f.le y x then false else true

pub record IsNumber {ℓ} (F : Type ℓ) ⦃f : Float F⦄ : Type ℓ where
  pub le_refl : (x : F) → x ≼ x
  pub le_trans : (x y z : F) → x ≼ y → y ≼ z → x ≼ z
  pub le_total : (x y : F) → f.le x y ≡ false → y ≼ x
  pub add_up : (x y : F) → f.nought ≼ y → x ≼ f.add x y
  pub sub_down : (x y : F) → f.nought ≼ y → f.sub x y ≼ x
  pub half_down : (x : F) → f.nought ≼ x → f.div x (f.of_nat 2) ≼ x
  pub mul_up : (x y : F) → f.nought ≼ x → f.nought ≼ y → f.nought ≼ f.mul x y
  pub one_up : f.nought ≼ f.one
  pub tenth_up : f.nought ≼ f.tenth
  pub of_nat_up : (n : ℕ) → f.nought ≼ f.of_nat n
  pub seconds_up : (n : ℕ) → f.nought ≼ f.seconds n
