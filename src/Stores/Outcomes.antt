-- ===== src/Stores/Outcomes.antt =====
-- internal/recordstore/store.go: PutOutcome. The records come in the order in which Go walks the map.
use queuezero.Prelude.{
  ◌≡◌, refl, ap, sym, ◌∙◌, String, Bool, true, not, ◌&&◌, Option, none, some, List, [], ◌∷◌, ◌==◌,
  if◌then◌else◌, is_some, Result, ok, All, arith, Option-cases, inl, inr,
}
use queuezero.Prelude.Texts.{codes, codes_eq}
use queuezero.Stores.{Name, Os, StoreError, put, put_data, get}
use queuezero.Stores.Names.{IsPlain}
use queuezero.Stores.Refines.{is_ok, ReadsBack, IsTemporary, record_format, record_store-refines}

-- One record to put, with what the calls of `os` do and the name of the temporary file.
pub record Putting (A D : Type 0) : Type 0 where
  pub os : Os D
  pub tmp : Name
  pub entity : String
  pub kept : A

abbrev on_put :
    {F : Type 0} → Option StoreError × F → (F → Option StoreError × F) → Option StoreError × F
on_put (none, fs) rest = rest fs
on_put (some e, fs) rest = (some e, fs)

module _ {A D : Type 0} (marshal : A → Option D) (unmarshal : D → Option A) where
  -- FileStore.PutOutcome
  pub put_outcome : List (Putting A D) → List (Name × D) → Option StoreError × List (Name × D)
  put_outcome [] fs = (none, fs)
  put_outcome (p ∷ ps) fs =
      on_put (put (record_format marshal unmarshal) p.os p.tmp p.entity p.kept fs) (put_outcome ps)

  -- A record that can be put: it has an entity and is marshalled, and each call of `os` succeeds.
  abbrev pub succeeds : Putting A D → Bool
  succeeds p =
      not (p.entity == "")
      && (is_some (marshal p.kept)
          && (p.os.creates && (p.os.writes && (p.os.closes && p.os.renames))))

  abbrev pub all_succeed : List (Putting A D) → Bool
  all_succeed [] = true
  all_succeed (p ∷ ps) = succeeds p && all_succeed ps

  -- What Get is to answer for `e` after the records before the first that fails.
  abbrev pub answer_after : String → List (Putting A D) → Result StoreError A → Result StoreError A
  answer_after e [] before = before
  answer_after e (p ∷ ps) before =
      let rest =
        answer_after e ps (if codes_eq (codes p.entity) (codes e) then ok p.kept else before) in
      if succeeds p then rest else before

  put-succeeds :
      (p : Putting A D) (fs : List (Name × D))
      → is_ok (put (record_format marshal unmarshal) p.os p.tmp p.entity p.kept fs).0 ≡ succeeds p
  unfolding put put_data
  put-succeeds p fs = elim (Option-cases (marshal p.kept)) [
    | inl n ↦ ground arith
    | inr (d, m) ↦ ground arith
  ]

  abbrev pub IsFit : Putting A D → Type 0
  IsFit p = IsPlain (codes p.entity) × IsTemporary (record_format marshal unmarshal) p.tmp

  abbrev pub Stored : String → List (Putting A D) → List (Name × D) → Type 0
  Stored e ps fs =
      (is_ok (put_outcome ps fs).0 ≡ all_succeed ps)
      × (get (record_format marshal unmarshal) true e (put_outcome ps fs).1
          ≡ answer_after e ps (get (record_format marshal unmarshal) true e fs))

  -- After one put, and whatever is to be put then.
  on_put-Stored :
      (e : String) (p : Putting A D) (ps : List (Putting A D)) (before : Result StoreError A)
      (r : Option StoreError × List (Name × D))
      → is_ok r.0 ≡ succeeds p
      → (get (record_format marshal unmarshal) true e r.1
          ≡ (if is_ok r.0 && codes_eq (codes p.entity) (codes e) then ok p.kept else before))
      → Stored e ps r.1
      → (is_ok (on_put r (put_outcome ps)).0 ≡ all_succeed (p ∷ ps))
        × (get (record_format marshal unmarshal) true e (on_put r (put_outcome ps)).1
            ≡ answer_after e (p ∷ ps) before)
  on_put-Stored e p ps before (none, fs) s g h = rw (sym s) (h.0, h.1 ∙ ap (answer_after e ps) g)
  on_put-Stored e p ps before (some x, fs) s g h = rw (sym s) (refl, g)

  -- PutOutcome, in whatever order it takes the records, puts all of them, or those before the first
  -- that cannot be put, and then returns an error; which is exactly when one cannot: it has no entity, is
  -- not marshalled, or a call of `os` fails. Get answers for an entity with the last record that was
  -- put for it, or else as before; where no entity has a per cent sign, JSON is read back as written and a
  -- temporary file is the file of no entity.
  pub put_outcome-Stored :
      (e : String) (ps : List (Putting A D)) (fs : List (Name × D))
      → ReadsBack (record_format marshal unmarshal)
      → IsPlain (codes e)
      → All IsFit ps
      → Stored e ps fs
  unfolding put_outcome
  put_outcome-Stored e [] fs back plain h = (refl, refl)
  put_outcome-Stored e (p ∷ ps) fs back plain h =
      let store = record_format marshal unmarshal in
      let r = put store p.os p.tmp p.entity p.kept fs in
      on_put-Stored e p ps (get store true e fs) r (put-succeeds p fs)
        (record_store-refines marshal unmarshal p.os p.tmp p.entity e p.kept fs back h.0.1 h.0.0
          plain)
        (put_outcome-Stored e ps r.1 back plain h.1)
