-- ===== src/Stores.antt =====
-- internal/recordstore/store.go and internal/slurm/holdstore.go: a directory with one file for each entity.
-- A directory is the list of its files, by name; names are lists of codes. Each call of `os` may fail, which
-- is an argument, and a failed write may leave any content. Encoding to JSON is a parameter. Making the
-- directory is not modelled; the two Put are one function here, as they are but for their encodings.
pub mod Names
pub mod Refines
pub mod Outcomes
pub mod Examples
use queuezero.Prelude.{
  ℕ, String, Bool, true, false, not, Option, none, some, List, [], ◌∷◌, ◌++◌, ◌==◌, if◌then◌else◌,
  Result, ok, err, nat_beq,
}
use queuezero.Prelude.Texts.{codes, codes_eq, has_prefix}

abbrev pub Name : Type 0
Name = List ℕ

module _ {D : Type 0} where
  abbrev pub read_file : Name → List (Name × D) → Option D
  read_file n [] = none
  read_file n ((m, d) ∷ rest) = if codes_eq m n then some d else read_file n rest

  abbrev pub write_file : Name → D → List (Name × D) → List (Name × D)
  write_file n d [] = (n, d) ∷ []
  write_file n d ((m, e) ∷ rest) =
      if codes_eq m n then (n, d) ∷ rest else (m, e) ∷ write_file n d rest

  abbrev pub remove_file : Name → List (Name × D) → List (Name × D)
  remove_file n [] = []
  remove_file n ((m, e) ∷ rest) =
      let others = remove_file n rest in if codes_eq m n then others else (m, e) ∷ others

  abbrev pub rename_file : Name → Name → List (Name × D) → List (Name × D)
  rename_file from to fs = elim (read_file from fs) [
    | none ↦ fs
    | some d ↦ write_file to d (remove_file from fs)
  ]

-- Which of the calls of `os` succeed, and what a temporary file holds before it is written.
pub record Os (D : Type 0) : Type 0 where
  pub creates : Bool
  pub writes : Bool
  pub closes : Bool
  pub renames : Bool
  pub removes : Bool
  pub reads : Bool
  pub partial : D

pub data StoreError : Type 0 where
  empty_entity marshal_failed create_failed write_failed close_failed rename_failed : StoreError
  not_found read_failed unmarshal_failed remove_failed : StoreError

-- encodeEntity: strings.ReplaceAll of a slash.
pub encode_entity : Name → Name
encode_entity [] = []
encode_entity (c ∷ cs) =
    let rest = encode_entity cs in if nat_beq c 47 then 37 ∷ 50 ∷ 70 ∷ rest else c ∷ rest

-- decodeEntity: strings.ReplaceAll of `%2F`.
pub decode_entity : Name → Name
decode_entity [] = []
decode_entity (c ∷ []) = c ∷ []
decode_entity (c ∷ d ∷ []) = c ∷ d ∷ []
decode_entity (c ∷ d ∷ e ∷ cs) =
    let hit = 47 ∷ decode_entity cs in
    let miss = c ∷ decode_entity (d ∷ e ∷ cs) in
    if codes_eq (c ∷ d ∷ e ∷ []) (37 ∷ 50 ∷ 70 ∷ []) then hit else miss

-- encodeHoldEntity: a strings.Replacer of `%`, `/` and a backslash.
pub encode_hold_entity : Name → Name
encode_hold_entity [] = []
encode_hold_entity (c ∷ cs) =
    let rest = encode_hold_entity cs in
    if nat_beq c 37
    then 37 ∷ 50 ∷ 53 ∷ rest
    else if nat_beq c 47
    then 37 ∷ 50 ∷ 70 ∷ rest
    else if nat_beq c 92
    then 37 ∷ 53 ∷ 67 ∷ rest
    else c ∷ rest

abbrev pub json : Name
json = codes ".json"

-- What a store keeps of an `A`, and how names are encoded.
pub record Format (A D : Type 0) : Type 0 where
  pub encode : Name → Name
  pub marshal : A → Option D
  pub unmarshal : D → Option A

module _ {A D : Type 0} (fmt : Format A D) where
  -- FileStore.path and FileHoldStore.path
  pub path : String → Name
  path e = fmt.encode (codes e) ++ json

  cleaned : Os D → Name → List (Name × D) → List (Name × D)
  cleaned os tmp fs = if os.removes then remove_file tmp fs else fs

  put_data : Os D → Name → Name → D → List (Name × D) → Option StoreError × List (Name × D)
  unfolding cleaned
  put_data os tmp final d fs =
      if not os.creates
      then (some create_failed, fs)
      else if not os.writes
      then (some write_failed, cleaned os tmp (write_file tmp os.partial fs))
      else if not os.closes
      then (some close_failed, cleaned os tmp (write_file tmp d fs))
      else if not os.renames
      then (some rename_failed, cleaned os tmp (write_file tmp d fs))
      else (none, rename_file tmp final (write_file tmp d fs))

  -- FileStore.Put and FileHoldStore.Put, of the entity's name and what is kept of it.
  pub put : Os D → Name → String → A → List (Name × D) → Option StoreError × List (Name × D)
  unfolding put_data path
  put os tmp e a fs = if e == "" then (some empty_entity, fs) else (elim (fmt.marshal a) [
    | none ↦ (some marshal_failed, fs)
    | some d ↦ put_data os tmp (path e) d fs
  ])

  abbrev unmarshalled : Option A → Result StoreError A
  unmarshalled none = err unmarshal_failed
  unmarshalled (some a) = ok a

  abbrev found : Option D → Result StoreError A
  found none = err not_found
  found (some d) = unmarshalled (fmt.unmarshal d)

  -- FileStore.Get and FileHoldStore.Get
  pub get : Bool → String → List (Name × D) → Result StoreError A
  unfolding path
  get reads e fs = if reads then found (read_file (path e) fs) else err read_failed

  -- FileHoldStore.Delete
  pub delete : Bool → String → List (Name × D) → Option StoreError × List (Name × D)
  unfolding path
  delete removes e fs =
      if removes then (none, remove_file (path e) fs) else (some remove_failed, fs)
