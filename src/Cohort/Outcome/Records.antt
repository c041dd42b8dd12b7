-- ===== src/Cohort/Outcome/Records.antt =====
-- A predicate of every record, from the trackers that the records are built of.
use queuezero.Prelude.{ℕ, String, List, [], ◌∷◌, map, All, ◌==◌, Bool-cases, inl, inr}
use queuezero.Cohort.Build.{Cohort}
use queuezero.Cohort.Record.{Record}
use queuezero.Cohort.Tracker.{Tracker, build_record}
use queuezero.Cohort.Outcome.{put_record, put_records, unless_terminal}

module _ (Q : Record → Type 0) where
  abbrev Holds : String × Record → Type 0
  Holds p = Q p.1

  put_record-All :
      (id : String) (rec : Record) (m : List (String × Record))
      → Q rec
      → All Holds m
      → All Holds (put_record id rec m)
  put_record-All id rec [] h hm = (h, tt)
  put_record-All id rec ((j, old) ∷ rest) h hm = elim (Bool-cases (j == id)) [
    | inl same ↦ rw (same, put_record) (h, hm.1)
    | inr other ↦ rw (other, put_record) (hm.0, put_record-All id rec rest h hm.1)
  ]

  put_records-All :
      (cohort_id : String) (now : ℕ) (ts : List Tracker) (m : List (String × Record))
      → All (λ (t : Tracker). Q (build_record cohort_id now t)) ts
      → All Holds m
      → All Holds (put_records cohort_id now ts m)
  put_records-All cohort_id now [] m h hm = hm
  put_records-All cohort_id now (t ∷ ts) m h hm =
      put_records-All cohort_id now ts _ h.1
        (put_record-All t.intent.id (build_record cohort_id now t) m h.0 hm)

  module _ (P : Tracker → Type 0) (c : Cohort) (now : ℕ) where
    mapped :
        (ts : List Tracker) (f : Tracker → Tracker)
        → ((t : Tracker) → P t → Q (build_record c.id now (unless_terminal f t)))
        → All P ts
        → All (λ (t : Tracker). Q (build_record c.id now t)) (map (unless_terminal f) ts)
    mapped [] f h p = tt
    mapped (t ∷ ts) f h p = (h t p.0, mapped ts f h p.1)

    pub closing-Records :
        (ts : List Tracker) (f : Tracker → Tracker)
        → ((t : Tracker) → P t → Q (build_record c.id now (unless_terminal f t)))
        → All P ts
        → All Holds (put_records c.id now (map (unless_terminal f) ts) [])
    closing-Records ts f h p = put_records-All c.id now _ [] (mapped ts f h p) tt
