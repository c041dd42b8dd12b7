-- ===== src/Mpi/Order.antt =====
-- The order of the IDs, and sorting by it.
use queuezero.Prelude.{ℕ, ◌≡◌, refl, true, false, List, [], ◌∷◌, arith, Bool-cases, inl, inr}
use queuezero.Prelude.Texts.{codes, codes_eq}
use queuezero.Cohort.Entity.{Observation}
use queuezero.Mpi.{not_after, insert, sort_by_id}

pub not_after_total : (a b : List ℕ) → not_after a b ≡ false → not_after b a ≡ true
not_after_total [] b h = absurd cc
not_after_total (x ∷ xs) [] h = refl
not_after_total (x ∷ xs) (y ∷ ys) h = ground (arith, not_after_total xs ys)

pub not_after_antisym :
    (a b : List ℕ) → not_after a b ≡ true → not_after b a ≡ true → codes_eq a b ≡ true
not_after_antisym [] [] h k = refl
not_after_antisym [] (y ∷ ys) h k = absurd cc
not_after_antisym (x ∷ xs) [] h k = absurd cc
not_after_antisym (x ∷ xs) (y ∷ ys) h k = ground (arith, not_after_antisym xs ys)

pub not_after_trans :
    (a b c : List ℕ) → not_after a b ≡ true → not_after b c ≡ true → not_after a c ≡ true
not_after_trans [] b c h k = refl
not_after_trans (x ∷ xs) [] c h k = absurd cc
not_after_trans (x ∷ xs) (y ∷ ys) [] h k = absurd cc
not_after_trans (x ∷ xs) (y ∷ ys) (z ∷ zs) h k = ground (arith, not_after_trans xs ys zs)

-- Two members of different IDs are inserted in either order.
pub insert_comm :
    (m n : Observation) (ms : List Observation)
    → codes_eq (codes m.id) (codes n.id) ≡ false
    → insert m (insert n ms) ≡ insert n (insert m ms)
insert_comm m n [] differ =
    ground (
      arith,
      not_after_total (codes m.id) (codes n.id),
      not_after_antisym (codes m.id) (codes n.id),
    )
insert_comm m n (k ∷ ks) differ = ground (
  arith,
  not_after_total (codes m.id) (codes n.id),
  not_after_antisym (codes m.id) (codes n.id),
  not_after_trans (codes m.id) (codes n.id) (codes k.id),
  not_after_trans (codes n.id) (codes m.id) (codes k.id),
  insert_comm m n ks differ,
)

-- In the order of the IDs.
abbrev Follows : Observation → List Observation → Type 0
Follows m [] = Unit {0}
Follows m (n ∷ ns) = not_after (codes m.id) (codes n.id) ≡ true

abbrev pub IsOrdered : List Observation → Type 0
IsOrdered [] = Unit {0}
IsOrdered (m ∷ ms) = Follows m ms × IsOrdered ms

insert-Follows :
    (k m : Observation) (ms : List Observation)
    → not_after (codes k.id) (codes m.id) ≡ true
    → Follows k ms
    → Follows k (insert m ms)
insert-Follows k m [] h f = h
insert-Follows k m (n ∷ ns) h f = ground arith

insert-IsOrdered :
    (m : Observation) (ms : List Observation) → IsOrdered ms → IsOrdered (insert m ms)
insert-IsOrdered m [] h = (tt, tt)
insert-IsOrdered m (n ∷ ns) h = elim (Bool-cases (not_after (codes m.id) (codes n.id))) [
  | inl first ↦ rw first (first, h)
  | inr later ↦
      let back = not_after_total (codes m.id) (codes n.id) later in
      rw later (insert-Follows n m ns back h.0, insert-IsOrdered m ns h.1)
]

pub sort_by_id-IsOrdered : (ms : List Observation) → IsOrdered (sort_by_id ms)
unfolding sort_by_id
sort_by_id-IsOrdered [] = tt
sort_by_id-IsOrdered (m ∷ ms) = insert-IsOrdered m (sort_by_id ms) (sort_by_id-IsOrdered ms)
