-- ===== src/Spec/Cluster/Paths.antt =====
-- When a path lies under a mount.
use queuezero.Prelude.{
  ℕ, ◌≡◌, ◌≢◌, refl, ap, ◌∙◌, Bool, true, false, ◌||◌, ◌&&◌, List, [], ◌∷◌, ◌++◌, arith, All,
  nat_beq, Bool-cases, inl, inr, Bool-cases,
}
use queuezero.Prelude.Texts.{codes_eq, has_prefix, split, onto_first}
use queuezero.Spec.Cluster.{
  dot_dot, go_up, step_into, walk, onto, is_rooted, segments, slashed, absolute, clean, under_mount,
}

abbrev NoSlash : List ℕ → Type 0
NoSlash = All (λ c. nat_beq c 47 ≡ false)

onto_first-NoSlash :
    (c : ℕ) (ws : List (List ℕ))
    → nat_beq c 47 ≡ false
    → All NoSlash ws
    → All NoSlash (onto_first c ws)
onto_first-NoSlash c [] h k = ((h, tt), tt)
onto_first-NoSlash c (w ∷ ws) h k = ((h, k.0), k.1)

split-NoSlash : (cs : List ℕ) → All NoSlash (split 47 cs)
split-NoSlash [] = (tt, tt)
split-NoSlash (c ∷ cs) = elim (Bool-cases (nat_beq c 47)) [
  | inl e ↦ rw e (tt, split-NoSlash cs)
  | inr e ↦ rw e (onto_first-NoSlash c (split 47 cs) e (split-NoSlash cs))
]

-- An element of a clean path: not empty, and without a slash.
abbrev IsSegment : List ℕ → Type 0
IsSegment seg = NoSlash seg × (codes_eq seg [] ≡ false)

go_up-IsSegment :
    (rooted : Bool) (stack : List (List ℕ))
    → All IsSegment stack
    → All IsSegment (go_up rooted stack)
go_up-IsSegment true [] h = tt
go_up-IsSegment false [] h = (((refl, (refl, tt)), refl), tt)
go_up-IsSegment rooted (top ∷ rest) h = elim (Bool-cases (codes_eq top dot_dot)) [
  | inl e ↦ rw e (((refl, (refl, tt)), refl), h)
  | inr e ↦ rw e h.1
]

step-IsSegment :
    (rooted : Bool) (seg : List ℕ) (stack : List (List ℕ))
    → NoSlash seg
    → All IsSegment stack
    → All IsSegment (step_into rooted seg stack)
step-IsSegment rooted seg stack s h =
    elim (Bool-cases (codes_eq seg [] || codes_eq seg (46 ∷ []))) [
      | inl e ↦ rw e h
      | inr e ↦ rw e (elim (Bool-cases (codes_eq seg dot_dot)) [
        | inl up ↦ rw up (go_up-IsSegment rooted stack h)
        | inr down ↦ rw down ((s, ground arith), h)
      ])
    ]

walk-IsSegment :
    (rooted : Bool) (segs stack : List (List ℕ))
    → All NoSlash segs
    → All IsSegment stack
    → All IsSegment (walk rooted segs stack)
walk-IsSegment rooted [] stack s h = h
walk-IsSegment rooted (seg ∷ segs) stack s h =
    walk-IsSegment rooted segs (step_into rooted seg stack) s.1
      (step-IsSegment rooted seg stack s.0 h)

onto-IsSegment :
    (xs out : List (List ℕ)) → All IsSegment xs → All IsSegment out → All IsSegment (onto xs out)
onto-IsSegment [] out h k = k
onto-IsSegment (x ∷ xs) out h k = onto-IsSegment xs (x ∷ out) h.1 (h.0, k)

segments-IsSegment : (path : List ℕ) → All IsSegment (segments path)
unfolding segments
segments-IsSegment path =
    onto-IsSegment (walk (is_rooted path) (split 47 path) []) []
      (walk-IsSegment (is_rooted path) (split 47 path) [] (split-NoSlash path) tt) tt

-- The test of underMount, of two clean paths.
abbrev under : List ℕ → List ℕ → Bool
under p m = codes_eq p m || has_prefix p (m ++ 47 ∷ [])

-- The first elements of the one path are those of the other.
abbrev pub starts_path : List (List ℕ) → List (List ℕ) → Bool
starts_path [] ps = true
starts_path (m ∷ ms) [] = false
starts_path (m ∷ ms) (p ∷ ps) = codes_eq p m && starts_path ms ps

under-segment :
    (p m : List ℕ) (ps ms : List (List ℕ))
    → NoSlash p
    → NoSlash m
    → under (p ++ slashed ps) (m ++ slashed ms) ≡ (codes_eq p m && under (slashed ps) (slashed ms))
under-segment [] [] ps ms h k = refl
under-segment [] (c ∷ cs) [] ms h k = refl
under-segment [] (c ∷ cs) (p ∷ ps) ms h k = ground (arith, k.0)
under-segment (d ∷ ds) [] ps [] h k = ground (arith, h.0)
under-segment (d ∷ ds) [] ps (m ∷ ms) h k = ground (arith, h.0)
under-segment (d ∷ ds) (c ∷ cs) ps ms h k = ground (arith, under-segment ds cs ps ms h.1 k.1)

under-slashed :
    (ps ms : List (List ℕ))
    → All IsSegment ps
    → All IsSegment ms
    → under (slashed ps) (slashed ms) ≡ starts_path ms ps
under-slashed [] [] h k = refl
under-slashed (p ∷ ps) [] h k = refl
under-slashed [] (m ∷ ms) h k = refl
under-slashed (p ∷ ps) (m ∷ ms) h k =
    under-segment p m ps ms h.0.0 k.0.0
    ∙ ap (λ (b : Bool). codes_eq p m && b) (under-slashed ps ms h.1 k.1)

under-absolute :
    (ps ms : List (List ℕ))
    → All IsSegment ps
    → All IsSegment ms
    → ms ≢ []
    → under (absolute ps) (absolute ms) ≡ starts_path ms ps
under-absolute ps [] h k n = absurd (n refl)
under-absolute (p ∷ ps) (m ∷ ms) h k n = under-slashed (p ∷ ps) (m ∷ ms) h k
under-absolute [] ([] ∷ ms) h k n = absurd (ground (arith, k.0.1))
under-absolute [] ((c ∷ cs) ∷ ms) h k n = refl

-- Of two paths from the root, the one is under the other, which is not the root itself, exactly when it
-- begins with its elements: `/shared-x` is not under `/shared`.
pub under_mount-eq :
    (path mount : List ℕ)
    → is_rooted path ≡ true
    → is_rooted mount ≡ true
    → segments mount ≢ []
    → under_mount path mount ≡ starts_path (segments mount) (segments path)
unfolding under_mount clean
under_mount-eq path mount p m n =
    rw (p, m)
      (under-absolute (segments path) (segments mount) (segments-IsSegment path)
        (segments-IsSegment mount) n)
