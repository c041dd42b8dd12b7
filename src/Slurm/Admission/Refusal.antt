-- ===== src/Slurm/Admission/Refusal.antt =====
-- What is written back to Slurm.
use queuezero.Prelude.{
  ℕ, ◌≡◌, refl, ap, sym, ◌≢◌, ◌∙◌, String, Bool, true, false, Option, none, some, List, [], ◌∷◌,
  ◌++◌, arith, ◌==◌, Bool-cases, inl, inr, All, is_some, snoc-append, ◌↔◌, ◌||◌, eq_iff, eq_refl,
  err,
}
use queuezero.Cohort.Entity.{EntityIntent}
use queuezero.Cohort.Record.{Record, succeeded, was_cohort_cancelled, was_parent_cancelled}
use queuezero.Cohort.Outcome.{put_record}
use queuezero.Cohort.Outcome.Labels.{stories}
use queuezero.Slurm.Admission.{
  ResumePorts, node_state, update, writeback, persist, finish, refusal, refusals, record_refusal,
}

-- A call of UpdateNode.
abbrev pub Written : Type 0
Written = String × String

-- The calls that the records ask for.
abbrev pub add_call : Record → Option String → List Written → List Written
add_call r none rest = rest
add_call r (some state) rest = (r.entity, state) ∷ rest

abbrev pub written : List (String × Record) → List Written
written [] = []
written ((id, r) ∷ rest) = add_call r (node_state r) (written rest)

down_is_not_drain : ◌≢◌ {A = Option String} (some "down") (some "drain")
down_is_not_drain e =
    let q : ("down" == "drain") ≡ true = ground (arith, e, eq_iff "down" "drain") in absurd cc

drain_is_not_down : ◌≢◌ {A = Option String} (some "drain") (some "down")
drain_is_not_down e = down_is_not_drain (sym e)

-- A record that tells one story: its node is left alone exactly where the entity succeeded, put down
-- exactly where it has a fault of its own, and drained exactly where it was cancelled, with its
-- cohort or by the parent.
pub node_state-story :
    (r : Record)
    → stories r ≡ 1
    → ((succeeded r ≡ true) ↔ (node_state r ≡ none))
      × ((is_some r.terminal ≡ true) ↔ (node_state r ≡ some "down"))
      × (((was_cohort_cancelled r || was_parent_cancelled r) ≡ true)
          ↔ (node_state r ≡ some "drain"))
unfolding node_state
node_state-story r h = elim (Bool-cases (succeeded r)) [
  | inl up ↦ rw up (ground arith)
  | inr out ↦ elim (Bool-cases (is_some r.terminal)) [
    | inl fault ↦ rw (out, fault) (ground (arith, down_is_not_drain, drain_is_not_down))
    | inr cancelled ↦ rw (out, cancelled) (ground (arith, down_is_not_drain, drain_is_not_down))
  ]
]

-- Ports that keep the list of the calls of UpdateNode.
abbrev pub recorder : ResumePorts (List Written)
recorder = record {
  admit = λ request w. (err "unreachable", w);
  put_outcome = none;
  update_node = λ id state r w. (none, w ++ (id, state) ∷ []);
  cluster = "";
  region = "";
  fail_mode = "";
}

append-nil : (xs : List Written) → xs ≡ xs ++ []
append-nil [] = refl
append-nil (x ∷ xs) = ap (λ (zs : List Written). x ∷ zs) (append-nil xs)

update-recorder :
    (r : Record) (s : Option String) (w rest : List Written)
    → update recorder r s w ++ rest ≡ w ++ add_call r s rest
unfolding update
update-recorder r none w rest = refl
update-recorder r (some state) w rest = snoc-append w (r.entity, state) rest

writeback-recorder :
    (rs : List (String × Record)) (w : List Written) → writeback recorder rs w ≡ w ++ written rs
unfolding writeback
writeback-recorder [] w = append-nil w
writeback-recorder ((id, r) ∷ rest) w =
    writeback-recorder rest (update recorder r (node_state r) w)
    ∙ update-recorder r (node_state r) w (written rest)

-- A record under its entity's name whose node is put down.
abbrev IsDown : String × Record → Type 0
IsDown p = (p.1.entity ≡ p.0) × (node_state p.1 ≡ some "down")

abbrev pub downs : List (String × Record) → List Written
downs [] = []
downs ((id, r) ∷ rest) = (id, "down") ∷ downs rest

written-downs : (rs : List (String × Record)) → All IsDown rs → written rs ≡ downs rs
written-downs [] h = refl
written-downs ((id, r) ∷ rest) h = rw (h.0.1, h.0.0, written-downs rest h.1) refl

abbrev pub has_key : String → List (String × Record) → Bool
has_key s [] = false
has_key s ((id, r) ∷ rest) = (id == s) || has_key s rest

has_key-put_self :
    (id : String) (r : Record) (m : List (String × Record)) → has_key id (put_record id r m) ≡ true
has_key-put_self id r [] = ground (arith, eq_refl id)
has_key-put_self id r ((j, old) ∷ rest) = ground (arith, eq_refl id, has_key-put_self id r rest)

has_key-put_other :
    (s id : String) (r : Record) (m : List (String × Record))
    → has_key s m ≡ true
    → has_key s (put_record id r m) ≡ true
has_key-put_other s id r [] h = ground arith
has_key-put_other s id r ((j, old) ∷ rest) h =
    ground (arith, eq_iff j id, eq_iff j s, eq_iff id s, has_key-put_other s id r rest)

put-IsDown :
    (id : String) (r : Record) (m : List (String × Record))
    → IsDown (id, r)
    → All IsDown m
    → All IsDown (put_record id r m)
put-IsDown id r [] h hm = (h, tt)
put-IsDown id r ((j, old) ∷ rest) h hm = elim (Bool-cases (j == id)) [
  | inl same ↦ rw (same, put_record) (h, hm.1)
  | inr other ↦ rw (other, put_record) (hm.0, put-IsDown id r rest h hm.1)
]

module _ (cohort_id : String) (now : ℕ) (reason : String) where
  refusals-keep :
      (s : String) (is : List EntityIntent) (m : List (String × Record))
      → has_key s m ≡ true
      → has_key s (refusals cohort_id now reason is m) ≡ true
  refusals-keep s [] m h = h
  refusals-keep s (i ∷ is) m h =
      refusals-keep s is _ (has_key-put_other s i.id (refusal cohort_id now reason i) m h)

  refusals-has_key :
      (is : List EntityIntent) (m : List (String × Record))
      → All (λ (i : EntityIntent). has_key i.id (refusals cohort_id now reason is m) ≡ true) is
  refusals-has_key [] m = tt
  refusals-has_key (i ∷ is) m = (
    refusals-keep i.id is _ (has_key-put_self i.id (refusal cohort_id now reason i) m),
    refusals-has_key is _,
  )

  refusals-IsDown :
      (is : List EntityIntent) (m : List (String × Record))
      → All IsDown m
      → All IsDown (refusals cohort_id now reason is m)
  unfolding node_state
  refusals-IsDown [] m h = h
  refusals-IsDown (i ∷ is) m h =
      refusals-IsDown is _ (put-IsDown i.id (refusal cohort_id now reason i) m (refl, refl) h)

  -- After a refusal every node of the fleet has a record, and what is written back to Slurm puts the
  -- nodes of the records down, and nothing else.
  pub refused_nodes_down :
      (is : List EntityIntent) (w : List Written)
      → (finish recorder (record_refusal is cohort_id now reason) w
          ≡ w ++ downs (record_refusal is cohort_id now reason).records)
        × All
            (λ (i : EntityIntent).
              has_key i.id (record_refusal is cohort_id now reason).records ≡ true)
            is
  unfolding finish persist record_refusal
  refused_nodes_down is w = (
    writeback-recorder (refusals cohort_id now reason is []) w
        ∙ ap (λ (l : List Written). w ++ l)
            (written-downs (refusals cohort_id now reason is []) (refusals-IsDown is [] tt)),
    refusals-has_key is [],
  )
