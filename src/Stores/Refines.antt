-- ===== src/Stores/Refines.antt =====
-- The stores implement a map from the names of entities.
use queuezero.Prelude.{
  ◌≡◌, ap, sym, ◌∙◌, Bool, true, false, ◌&&◌, List, ◌++◌, arith, Bool-cases, Option-cases, some,
  none, inl, inr, String, if◌then◌else◌, Option, ok, err,
}
use queuezero.Prelude.Texts.{codes, codes_eq}
use queuezero.Stores.{
  Name, Os, not_found, Format, encode_entity, encode_hold_entity, json, read_file, write_file,
  remove_file, rename_file, path, cleaned, put_data, put, get, delete,
}
use queuezero.Stores.Names.{
  codes_eq_sound, codes_eq_self, codes_eq_iff, IsPlain, encode_entity_injective,
  encode_hold_entity_injective, encode_entity_idem, append_injective, read-write, read-remove,
}

-- What the specification of a put asks of one entity's answer.
abbrev pub is_ok : {E : Type 0} → Option E → Bool
is_ok none = true
is_ok (some e) = false

rename-found :
    {D : Type 0} (from to : Name) (d : D) (fs : List (Name × D))
    → read_file from fs ≡ some d
    → rename_file from to fs ≡ write_file to d (remove_file from fs)
rename-found from to d fs h = ground arith

module _ {A D : Type 0} (fmt : Format A D) where
  -- JSON is read back as it was written.
  abbrev pub ReadsBack : Type 0
  ReadsBack = (a : A) (d : D) → fmt.marshal a ≡ some d → fmt.unmarshal d ≡ some a

  -- The store tells these two names apart.
  abbrev pub TellsApart : String → String → Type 0
  TellsApart e e' = fmt.encode (codes e) ≡ fmt.encode (codes e') → codes e ≡ codes e'

  -- A temporary file is the file of no entity.
  abbrev pub IsTemporary : Name → Type 0
  IsTemporary tmp = (e : String) → codes_eq tmp (path fmt e) ≡ false

  path_eq :
      (e e' : String)
      → TellsApart e e'
      → codes_eq (path fmt e) (path fmt e') ≡ codes_eq (codes e) (codes e')
  unfolding path
  path_eq e e' apart = elim (Bool-cases (codes_eq (codes e) (codes e'))) [
    | inl same ↦
        let q : codes e ≡ codes e' = codes_eq_sound (codes e) (codes e') same in
        rw (same, q) (codes_eq_self (path fmt e'))
    | inr other ↦ elim (Bool-cases (codes_eq (path fmt e) (path fmt e'))) [
      | inl clash ↦
          let q : codes e ≡ codes e' = apart (
            append_injective (fmt.encode (codes e)) (fmt.encode (codes e')) json
              (codes_eq_sound (path fmt e) (path fmt e') clash)) in
          let same : codes_eq (codes e) (codes e') ≡ true =
            (codes_eq_iff (codes e) (codes e')).1 q in
          absurd cc
      | inr differ ↦ differ ∙ sym other
    ]
  ]

  module _ (os : Os D) (tmp : Name) (temporary : IsTemporary tmp) where
    cleaned-read :
        (e : String) (d : D) (fs : List (Name × D))
        → read_file (path fmt e) (cleaned fmt os tmp (write_file tmp d fs))
          ≡ read_file (path fmt e) fs
    unfolding cleaned
    cleaned-read e d fs = ground (
      arith,
      temporary e,
      read-write (path fmt e) tmp d fs,
      read-remove (path fmt e) tmp (write_file tmp d fs),
    )

    renamed-read :
        (e : String) (final : Name) (d : D) (fs : List (Name × D))
        → read_file (path fmt e) (rename_file tmp final (write_file tmp d fs))
          ≡ (if codes_eq final (path fmt e) then some d else read_file (path fmt e) fs)
    renamed-read e final d fs =
        let written : read_file tmp (write_file tmp d fs) ≡ some d =
          read-write tmp tmp d fs
          ∙ ap (λ (b : Bool). if b then some d else read_file tmp fs) (codes_eq_self tmp) in
        ap (read_file (path fmt e)) (rename-found tmp final d (write_file tmp d fs) written)
        ∙ ground (
          arith,
          temporary e,
          read-write (path fmt e) final d (remove_file tmp (write_file tmp d fs)),
          read-write (path fmt e) tmp d fs,
          read-remove (path fmt e) tmp (write_file tmp d fs),
        )

    put_data-read :
        (e : String) (final : Name) (d : D) (fs : List (Name × D))
        → read_file (path fmt e) (put_data fmt os tmp final d fs).1 ≡ (
            if is_ok (put_data fmt os tmp final d fs).0 && codes_eq final (path fmt e)
            then some d
            else read_file (path fmt e) fs)
    unfolding put_data
    put_data-read e final d fs =
        ground (arith, cleaned-read e d fs, cleaned-read e os.partial fs, renamed-read e final d fs)

    put-read :
        (e e' : String) (a : A) (fs : List (Name × D))
        → ReadsBack
        → get fmt true e' (put fmt os tmp e a fs).1 ≡ (
            if is_ok (put fmt os tmp e a fs).0 && codes_eq (path fmt e) (path fmt e')
            then ok a
            else get fmt true e' fs)
    unfolding put get
    put-read e e' a fs back = elim (Option-cases (fmt.marshal a)) [
      | inl n ↦ ground arith
      | inr (d, m) ↦ ground (arith, put_data-read e' (path fmt e) d fs, back a d m)
    ]

    put_updates :
        (e e' : String) (a : A) (fs : List (Name × D))
        → ReadsBack
        → TellsApart e e'
        → get fmt true e' (put fmt os tmp e a fs).1 ≡ (
            if is_ok (put fmt os tmp e a fs).0 && codes_eq (codes e) (codes e')
            then ok a
            else get fmt true e' fs)
    put_updates e e' a fs back apart =
        put-read e e' a fs back
        ∙ ap
            (λ (b : Bool).
              if is_ok (put fmt os tmp e a fs).0 && b then ok a else get fmt true e' fs)
            (path_eq e e' apart)

  delete_removes :
      (removes : Bool) (e e' : String) (fs : List (Name × D))
      → TellsApart e e'
      → get fmt true e' (delete fmt removes e fs).1 ≡ (
          if is_ok (delete fmt removes e fs).0 && codes_eq (codes e) (codes e')
          then err not_found
          else get fmt true e' fs)
  unfolding get delete
  delete_removes removes e e' fs apart =
      ground (arith, read-remove (path fmt e') (path fmt e) fs, path_eq e e' apart)

-- The formats of the two stores.
abbrev pub record_format : {A D : Type 0} → (A → Option D) → (D → Option A) → Format A D
record_format marshal unmarshal = record {
  encode = encode_entity;
  marshal = marshal;
  unmarshal = unmarshal;
}

abbrev pub hold_format : {A D : Type 0} → (A → Option D) → (D → Option A) → Format A D
hold_format marshal unmarshal = record {
  encode = encode_hold_entity;
  marshal = marshal;
  unmarshal = unmarshal;
}

module _ {A D : Type 0} (marshal : A → Option D) (unmarshal : D → Option A) (os : Os D)
    (tmp : Name) where
  -- The record store is a map from the names of entities that have no per cent sign, where JSON is read
  -- back as written and a temporary file is the file of no entity: after a Put that succeeds, Get answers
  -- with the record for its entity, and as before for any other; after one that fails, whichever call of
  -- `os` fails, it answers as before for all.
  pub record_store-refines :
      (e e' : String) (a : A) (fs : List (Name × D))
      → ReadsBack (record_format marshal unmarshal)
      → IsTemporary (record_format marshal unmarshal) tmp
      → IsPlain (codes e)
      → IsPlain (codes e')
      → (let store = record_format marshal unmarshal in
          get store true e' (put store os tmp e a fs).1 ≡ (
            if is_ok (put store os tmp e a fs).0 && codes_eq (codes e) (codes e')
            then ok a
            else get store true e' fs))
  record_store-refines e e' a fs back temporary p q =
      put_updates (record_format marshal unmarshal) os tmp temporary e e' a fs back
        (encode_entity_injective (codes e) (codes e') p q)

  -- The hold store is a map from all names of entities, on the same terms: Put sets the hold of its
  -- entity or changes none, and Delete removes it or changes none.
  pub hold_store-refines :
      (e e' : String) (a : A) (removes : Bool) (fs : List (Name × D))
      → ReadsBack (hold_format marshal unmarshal)
      → IsTemporary (hold_format marshal unmarshal) tmp
      → (let store = hold_format marshal unmarshal in
          (get store true e' (put store os tmp e a fs).1 ≡ (
            if is_ok (put store os tmp e a fs).0 && codes_eq (codes e) (codes e')
            then ok a
            else get store true e' fs))
          × (get store true e' (delete store removes e fs).1 ≡ (
              if is_ok (delete store removes e fs).0 && codes_eq (codes e) (codes e')
              then err not_found
              else get store true e' fs)))
  hold_store-refines e e' a removes fs back temporary =
      let apart = encode_hold_entity_injective (codes e) (codes e') in
      (
        put_updates (hold_format marshal unmarshal) os tmp temporary e e' a fs back apart,
        delete_removes (hold_format marshal unmarshal) removes e e' fs apart,
      )

  -- An entity whose name is what encodeEntity makes of another's shares the other's file: after a Put for
  -- the one that succeeds, Get answers with that record for the other.
  pub encoded_name_shares :
      (e e' : String) (a : A) (fs : List (Name × D))
      → ReadsBack (record_format marshal unmarshal)
      → IsTemporary (record_format marshal unmarshal) tmp
      → codes e' ≡ encode_entity (codes e)
      → (put (record_format marshal unmarshal) os tmp e a fs).0 ≡ none
      → get
          (record_format marshal unmarshal)
          true
          e'
          (put (record_format marshal unmarshal) os tmp e a fs).1
        ≡ ok a
  unfolding path
  encoded_name_shares e e' a fs back temporary encoded done =
      let store = record_format marshal unmarshal in
      let same : path store e ≡ path store e' =
        ap (λ (n : Name). n ++ json)
          (sym (ap encode_entity encoded ∙ encode_entity_idem (codes e))) in
      let one_file : codes_eq (path store e) (path store e') ≡ true =
        (codes_eq_iff (path store e) (path store e')).1 same in
      put-read store os tmp temporary e e' a fs back ∙ ground (arith, done, one_file)
