-- ===== src/Aws/Launch/Digest.antt =====
-- What sha256FromKey accepts.
use queuezero.Prelude.{
  ◌≡◌, sym, subst, String, true, not, ◌||◌, some, none, length, nat_beq, arith, Bool-cases, inl,
  inr, ◌≢◌, if◌then◌else◌,
}
use queuezero.Prelude.Texts.{codes}
use queuezero.Aws.Launch.{base_name, is_hex, sha256_from_key}

-- 64 hexadecimal digits.
pub record IsDigest (s : String) : Type 0 where
  pub size : length (codes s) ≡ 64
  pub hex : is_hex (codes s) ≡ true

checked-IsDigest :
    (base sha : String)
    → (if not (nat_beq (length (codes base)) 64) || not (is_hex (codes base))
        then none
        else some base)
      ≡ some sha
    → IsDigest sha × (sha ≡ base)
checked-IsDigest base sha h = elim (Bool-cases (nat_beq (length (codes base)) 64)) [
  | inl size ↦ elim (Bool-cases (is_hex (codes base))) [
    | inl hex ↦
        let e : base ≡ sha = ground arith in
        (
          record {
            size = subst (λ (s : String). length (codes s) ≡ 64) e (ground arith);
            hex = subst (λ (s : String). is_hex (codes s) ≡ true) e hex;
          },
          sym e,
        )
    | inr other ↦ absurd (ground arith)
  ]
  | inr other ↦ absurd (ground arith)
]

pub sha256_from_key-IsDigest :
    (uri sha : String) → sha256_from_key uri ≡ some sha → IsDigest sha × (sha ≡ base_name uri)
unfolding sha256_from_key
sha256_from_key-IsDigest uri sha h = checked-IsDigest (base_name uri) sha h

pub IsDigest-filled : (s : String) → IsDigest s → s ≢ ""
IsDigest-filled s digest e =
    let none_there : length (codes "") ≡ 64 =
      subst (λ (t : String). length (codes t) ≡ 64) e digest.size in
    absurd (ground arith)

pub sha256_from_key-none : (uri : String) → sha256_from_key uri ≡ none → ¬ IsDigest (base_name uri)
unfolding sha256_from_key
sha256_from_key-none uri h digest =
    let size = digest.size in let hex = digest.hex in absurd (ground arith)
