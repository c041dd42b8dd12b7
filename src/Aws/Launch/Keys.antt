-- ===== src/Aws/Launch/Keys.antt =====
-- internal/bootstrap/pack.go: ScriptKey, and what sha256FromKey of the actuator reads from it.
use queuezero.Prelude.{
  ◌≡◌, refl, ap, sym, subst, ◌∙◌, ℕ, ◌+◌, String, ◌<>◌, true, false, List, some, none, length,
  length-append, nat_beq, arith, Bool-cases, inl, inr, [], ◌∷◌, ◌==◌, eq_iff,
}
use Prim.Native.Char.{Char, code}
use text.Mathlib.TextLemmas.{cons-append, nil-append, append_assoc}
use queuezero.Prelude.Texts.{codes}
use queuezero.Prelude.Texts.Laws.{Without, All-append, codes-append}
use queuezero.Aws.Launch.{
  after_slash, trim_suffix, is_hex, is_hex_digit, base_name, sha256_from_key,
}
use queuezero.Aws.Launch.Digest.{IsDigest}

-- ScriptKey
pub script_key : String → String
script_key sha = "scripts/" <> (sha <> ".tar.gz")

hex-Without : (c : ℕ) (cs : List ℕ) → is_hex_digit c ≡ false → is_hex cs ≡ true → Without c cs
hex-Without c [] h k = tt
hex-Without c (d ∷ ds) h k = (ground arith, hex-Without c ds h (ground arith))

after_slash-none : (s : String) → Without 47 (codes s) → after_slash s ≡ none
after_slash-none String.[] h = refl
after_slash-none (String.◌∷◌ c s) h = rw (after_slash-none s h.1, h.0) refl

after_slash-append :
    (p : String) (c : Char) (rest : String)
    → code c ≡ 47
    → after_slash rest ≡ none
    → after_slash (p <> String.◌∷◌ c rest) ≡ some rest
after_slash-append String.[] c rest e h =
    ap after_slash (nil-append (String.◌∷◌ c rest)) ∙ rw (h, e) refl
after_slash-append (String.◌∷◌ d p) c rest e h =
    ap after_slash (cons-append d p (String.◌∷◌ c rest)) ∙ rw (after_slash-append p c rest e h) refl

-- A text is not the end of itself after something.
longer : (c : Char) (s suffix : String) → (String.◌∷◌ c (s <> suffix) == suffix) ≡ false
longer c s suffix = elim (Bool-cases (String.◌∷◌ c (s <> suffix) == suffix)) [
  | inl same ↦
      let e : String.◌∷◌ c (s <> suffix) ≡ suffix =
        (eq_iff (String.◌∷◌ c (s <> suffix)) suffix).0 same in
      let n : length (codes (String.◌∷◌ c (s <> suffix))) ≡ length (codes suffix) =
        ap (λ (t : String). length (codes t)) e in
      let m : length (codes (s <> suffix)) ≡ length (codes s) + length (codes suffix) =
        ap length (codes-append s suffix) ∙ length-append (codes s) (codes suffix) in
      absurd (omega (arith, n, m))
  | inr other ↦ other
]

-- TrimSuffix takes the suffix off, if there is nothing but it to take.
trim_suffix-append :
    (suffix : String)
    → trim_suffix suffix suffix ≡ ""
    → (s : String) → trim_suffix suffix (s <> suffix) ≡ s
trim_suffix-append suffix h String.[] = ap (trim_suffix suffix) (nil-append suffix) ∙ h
trim_suffix-append suffix h (String.◌∷◌ c s) =
    ap (trim_suffix suffix) (cons-append c s suffix)
    ∙ rw (longer c s suffix, trim_suffix-append suffix h s) refl

head_eq : (a b : ℕ) (l m : List ℕ) → a ∷ l ≡ b ∷ m → a ≡ b
head_eq a b l m e = cc

-- It takes nothing off hexadecimal digits, if the suffix begins with another code.
trim_suffix-hex :
    (d : Char) (rest s : String)
    → is_hex_digit (code d) ≡ false
    → is_hex (codes s) ≡ true
    → trim_suffix (String.◌∷◌ d rest) s ≡ s
trim_suffix-hex d rest String.[] h k = refl
trim_suffix-hex d rest (String.◌∷◌ c s) h k =
    rw (differs, trim_suffix-hex d rest s h (ground arith)) refl
  where
    differs : (String.◌∷◌ c s == String.◌∷◌ d rest) ≡ false
    differs = elim (Bool-cases (String.◌∷◌ c s == String.◌∷◌ d rest)) [
      | inl same ↦
          let e : codes (String.◌∷◌ c s) ≡ codes (String.◌∷◌ d rest) =
            ap codes ((eq_iff (String.◌∷◌ c s) (String.◌∷◌ d rest)).0 same) in
          let q : code c ≡ code d = head_eq _ _ _ _ e in
          let yes_hex : is_hex_digit (code c) ≡ true = ground arith in
          absurd (ground (arith, ap is_hex_digit q))
      | inr other ↦ other
    ]

module _ (bucket : String) (sha : String) (digest : IsDigest sha) where
  -- Where the script-set is put: the bucket, and the key of its digest.
  abbrev pub script_uri : String
  script_uri = "s3://" <> (bucket <> ("/" <> script_key sha))

  -- The name of the object.
  abbrev object : String
  object = sha <> ".tar.gz"

  object-no_slash : after_slash object ≡ none
  object-no_slash = after_slash-none object (
      subst (Without 47) (sym (codes-append sha ".tar.gz")) (
        All-append (λ c. nat_beq c 47 ≡ false) (codes sha) (codes ".tar.gz")
          (hex-Without 47 (codes sha) refl digest.hex)
          (refl, (refl, (refl, (refl, (refl, (refl, (refl, tt)))))))))

  after_slash-uri : after_slash script_uri ≡ some object
  unfolding script_key
  after_slash-uri =
      ap after_slash shape
      ∙ after_slash-append ("s3://" <> (bucket <> ("/" <> "scripts"))) "/" object refl
          object-no_slash
    where
      slash : "/" <> object ≡ String.◌∷◌ "/" object
      slash = cons-append "/" "" object ∙ ap (String.◌∷◌ "/") (nil-append object)

      last_part : "/" <> ("scripts/" <> object) ≡ ("/" <> "scripts") <> String.◌∷◌ "/" object
      last_part =
          ap (λ (t : String). "/" <> t) (append_assoc "scripts" "/" object)
          ∙ sym (append_assoc "/" "scripts" ("/" <> object))
          ∙ ap (λ (t : String). ("/" <> "scripts") <> t) slash

      shape : script_uri ≡ ("s3://" <> (bucket <> ("/" <> "scripts"))) <> String.◌∷◌ "/" object
      shape =
          ap (λ (t : String). "s3://" <> (bucket <> t)) last_part
          ∙ ap (λ (t : String). "s3://" <> t)
              (sym (append_assoc bucket ("/" <> "scripts") (String.◌∷◌ "/" object)))
          ∙ sym (append_assoc "s3://" (bucket <> ("/" <> "scripts")) (String.◌∷◌ "/" object))

  trimmed : trim_suffix ".tgz" (trim_suffix ".tar" (trim_suffix ".gz" object)) ≡ sha
  trimmed =
      ap (λ (t : String). trim_suffix ".tgz" (trim_suffix ".tar" (trim_suffix ".gz" t)))
        (sym (append_assoc sha ".tar" ".gz"))
      ∙ ap (λ (t : String). trim_suffix ".tgz" (trim_suffix ".tar" t))
          (trim_suffix-append ".gz" refl (sha <> ".tar"))
      ∙ ap (trim_suffix ".tgz") (trim_suffix-append ".tar" refl sha)
      ∙ trim_suffix-hex "." "tgz" sha refl digest.hex

  base_name-uri : base_name script_uri ≡ sha
  unfolding base_name
  base_name-uri = rw after_slash-uri trimmed

  -- The actuator reads from the URI of a script-set, in whatever bucket, the digest that its key was made
  -- of, if that is one of 64 hexadecimal digits; so it takes it for one that is addressed by its content.
  pub sha256_from_key-script_key : sha256_from_key script_uri ≡ some sha
  unfolding sha256_from_key
  sha256_from_key-script_key =
      let sized : nat_beq (length (codes sha)) 64 ≡ true = rw digest.size refl in
      rw base_name-uri (rw (sized, digest.hex) refl)
