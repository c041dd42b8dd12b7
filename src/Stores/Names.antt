-- ===== src/Stores/Names.antt =====
-- Which names of entities two stores tell apart.
use queuezero.Prelude.{
  ℕ, length, length-append, ◌≡◌, ◌≢◌, ◌↔◌, refl, ap, sym, ◌∙◌, true, List, [], ◌∷◌, ◌++◌, arith,
  All, some, none, if◌then◌else◌,
}
use queuezero.Prelude.Texts.{codes_eq}
use queuezero.Stores.{Name, encode_entity, encode_hold_entity, read_file, write_file, remove_file}

pub codes_eq_sound : (a b : List ℕ) → codes_eq a b ≡ true → a ≡ b
codes_eq_sound [] [] h = refl
codes_eq_sound [] (y ∷ ys) h = absurd cc
codes_eq_sound (x ∷ xs) [] h = absurd cc
codes_eq_sound (x ∷ xs) (y ∷ ys) h = ground (arith, codes_eq_sound xs ys)

pub codes_eq_self : (a : List ℕ) → codes_eq a a ≡ true
codes_eq_self [] = refl
codes_eq_self (x ∷ xs) = ground (arith, codes_eq_self xs)

pub codes_eq_iff : (a b : List ℕ) → (codes_eq a b ≡ true) ↔ (a ≡ b)
codes_eq_iff a b = (codes_eq_sound a b, λ h. ap (codes_eq a) (sym h) ∙ codes_eq_self a)

-- A name that encodeEntity keeps apart from any other: without a per cent sign.
abbrev pub IsPlain : Name → Type 0
IsPlain = All (λ c. c ≢ 37)

pub encode_entity_injective :
    (a b : Name) → IsPlain a → IsPlain b → encode_entity a ≡ encode_entity b → a ≡ b
unfolding encode_entity
encode_entity_injective [] [] p q h = refl
encode_entity_injective [] (y ∷ ys) p q h = absurd (ground arith)
encode_entity_injective (x ∷ xs) [] p q h = absurd (ground arith)
encode_entity_injective (x ∷ xs) (y ∷ ys) p q h =
    ground (arith, p.0, q.0, encode_entity_injective xs ys p.1 q.1)

pub encode_hold_entity_injective :
    (a b : Name) → encode_hold_entity a ≡ encode_hold_entity b → a ≡ b
unfolding encode_hold_entity
encode_hold_entity_injective [] [] h = refl
encode_hold_entity_injective [] (y ∷ ys) h = absurd (ground arith)
encode_hold_entity_injective (x ∷ xs) [] h = absurd (ground arith)
encode_hold_entity_injective (x ∷ xs) (y ∷ ys) h =
    ground (arith, encode_hold_entity_injective xs ys)

pub append_injective : (a b c : Name) → a ++ c ≡ b ++ c → a ≡ b
append_injective [] [] c h = refl
append_injective [] (y ∷ ys) c h = absurd (omega (arith, ap length h, length-append ys c))
append_injective (x ∷ xs) [] c h = absurd (omega (arith, ap length h, length-append xs c))
append_injective (x ∷ xs) (y ∷ ys) c h = ground (arith, append_injective xs ys c)

module _ {D : Type 0} where
  pub read-write :
      (n m : Name) (d : D) (fs : List (Name × D))
      → read_file n (write_file m d fs) ≡ (if codes_eq m n then some d else read_file n fs)
  read-write n m d [] = refl
  read-write n m d ((k, e) ∷ fs) =
      ground (arith, codes_eq_iff k m, codes_eq_iff k n, codes_eq_iff m n, read-write n m d fs)

  pub read-remove :
      (n m : Name) (fs : List (Name × D))
      → read_file n (remove_file m fs) ≡ (if codes_eq m n then none else read_file n fs)
  read-remove n m [] = ground arith
  read-remove n m ((k, e) ∷ fs) =
      ground (arith, codes_eq_iff k m, codes_eq_iff k n, codes_eq_iff m n, read-remove n m fs)

pub encode_entity_idem : (a : Name) → encode_entity (encode_entity a) ≡ encode_entity a
unfolding encode_entity
encode_entity_idem [] = refl
encode_entity_idem (c ∷ cs) = ground (arith, encode_entity_idem cs)
