-- ===== src/Prelude/Loop.antt =====
-- A `for` loop whose turns either go on with a new state or return: a recursion on the list of what
-- the turns meet, and its rule. `none` means that the loop runs on after the list.
use queuezero.Prelude.Counting.{bit, count_if}
use queuezero.Prelude.{
  ℕ, ◌+◌, ◌≤◌, ◌<◌, Bool, true, is_some, All, ◌≡◌, Option, none, some, List, [], ◌∷◌, arith, refl,
  ap, ◌∙◌,
}

pub data Turn {ℓ κ} (S : Type ℓ) (R : Type κ) : Type (ℓ ⊔ κ) where
  again : S → Turn S R
  returned : R → Turn S R

module _ {ℓ κ μ} {K : Type ℓ} {S : Type κ} {R : Type μ} (turn : K → S → Turn S R) where
  unfoldable pub loop : List K → S → Option R
  loop [] s = none
  loop (k ∷ ks) s = elim (turn k s) [ again s' ↦ loop ks s' | returned r ↦ some r ]

  -- What holds at a return, and is kept by going on, holds of the result.
  module _ {ν} (Q : List K → S → R → Type ν)
      (stop : (k : K) (ks : List K) (s : S) (r : R) → turn k s ≡ returned r → Q (k ∷ ks) s r)
      (go : (k : K) (ks : List K) (s s' : S) (r : R)
        → turn k s ≡ again s'
        → Q ks s' r
        → Q (k ∷ ks) s r) where
    on_turn :
        (k : K) (ks : List K) (s : S) (r : R) (t : Turn S R)
        → turn k s ≡ t
        → (elim t [ again s' ↦ loop ks s' | returned r' ↦ some r' ]) ≡ some r
        → ((s' : S) → loop ks s' ≡ some r → Q ks s' r)
        → Q (k ∷ ks) s r
    on_turn k ks s r (again s') e h ih = go k ks s s' r e (ih s' h)
    on_turn k ks s r (returned r') e h ih = let q : r' ≡ r = cc in stop k ks s r (e ∙ ap returned q)

    pub loop_rule : (ks : List K) (s : S) (r : R) → loop ks s ≡ some r → Q ks s r
    unfolding loop
    loop_rule [] s r h = absurd (ground arith)
    loop_rule (k ∷ ks) s r h = on_turn k ks s r (turn k s) refl h (λ s'. loop_rule ks s' r)

  -- A loop whose measure falls on each turn of positive weight that goes on, and rises on none,
  -- returns within as many such turns as the measure says.
  module _ {ν} (P : S → Type ν) (measure : S → ℕ) (weight : K → Bool)
      (pos : (s : S) → P s → 0 < measure s)
      (falls : (k : K) (s s' : S)
        → P s
        → turn k s ≡ again s'
        → P s' × (measure s' + bit (weight k) ≤ measure s)) where
    on_turn_returns :
        (k : K) (ks : List K) (s : S) (t : Turn S R)
        → turn k s ≡ t
        → P s
        → measure s ≤ bit (weight k) + count_if weight ks
        → ((s' : S) → P s' → measure s' ≤ count_if weight ks → is_some (loop ks s') ≡ true)
        → is_some (elim t [ again s' ↦ loop ks s' | returned r ↦ some r ]) ≡ true
    on_turn_returns k ks s (returned r) e p m ih = refl
    on_turn_returns k ks s (again s') e p m ih =
        let (p', fall) = falls k s s' p e in ih s' p' (omega arith)

    pub loop_returns :
        (ks : List K) (s : S) → P s → measure s ≤ count_if weight ks → is_some (loop ks s) ≡ true
    unfolding loop
    loop_returns [] s p m = absurd (omega (arith, pos s p))
    loop_returns (k ∷ ks) s p m = on_turn_returns k ks s (turn k s) refl p m (loop_returns ks)

  -- A loop that goes on at every turn that it meets runs on.
  module _ {ν ρ} (P : S → Type ν) (Meets : K → Type ρ)
      (goes_on : (k : K) (s : S) → Meets k → P s → (s' : S) × (turn k s ≡ again s') × P s') where
    pub loop_runs : (ks : List K) (s : S) → All Meets ks → P s → loop ks s ≡ none
    unfolding loop
    loop_runs [] s m p = refl
    loop_runs (k ∷ ks) s m p =
        let (s', e, p') = goes_on k s m.0 p in rw (e, loop) (loop_runs ks s' m.1 p')
