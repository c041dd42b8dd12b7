-- ===== src/Bootstrap/Mounts.antt =====
-- ParseMountSpec reads what FormatMountSpec writes.
use queuezero.Prelude.{
  ℕ, ◌≡◌, refl, ap, sym, subst, ◌∙◌, String, ◌<>◌, false, Option, some, List, [], ◌∷◌, ◌++◌, map,
  ◌==◌, if◌then◌else◌, nat_beq, All, arith, Bool-cases, inl, inr,
}
use queuezero.Prelude.Texts.{cut, split, codes, trim_space, is_space}
use queuezero.Prelude.Texts.Laws.{
  Without, split-Without, split-append, cut-append, All-append, codes-append, IsSolid,
  trim_space-IsSolid,
}
use queuezero.Bootstrap.{
  Mount, join, is_empty, parts_of, format_mount_spec, halves, add_some, mounts_of, if_any,
  parse_mount_spec,
}

-- A mount that the format can carry: no space and no comma in it, and no colon in its DNS name.
pub record IsPlain (m : Mount) : Type 0 where
  pub dns_solid : IsSolid (codes m.dns)
  pub path_solid : IsSolid (codes m.path)
  pub dns_whole : Without 44 (codes m.dns)
  pub path_whole : Without 44 (codes m.path)
  pub dns_only : Without 58 (codes m.dns)

abbrev pub mount_codes : Mount → List ℕ × List ℕ
mount_codes m = (codes m.dns, codes m.path)

-- The mounts with both halves.
abbrev pub complete : List Mount → List Mount
complete [] = []
complete (m ∷ ms) = if is_empty m then complete ms else m ∷ complete ms

abbrev entry : Mount → String
entry m = m.dns <> (":" <> m.path)

entry-codes : (m : Mount) → codes (entry m) ≡ codes m.dns ++ 58 ∷ codes m.path
entry-codes m =
    codes-append m.dns (":" <> m.path)
    ∙ ap (λ (cs : List ℕ). codes m.dns ++ cs) (codes-append ":" m.path)

entry-All :
    (P : ℕ → Type 0) (m : Mount)
    → All P (codes m.dns)
    → P 58
    → All P (codes m.path)
    → All P (codes (entry m))
entry-All P m h c k =
    subst (All P) (sym (entry-codes m)) (All-append P (codes m.dns) (58 ∷ codes m.path) h (c, k))

-- Texts that stand alone between commas.
abbrev IsEntry : String → Type 0
IsEntry s = IsSolid (codes s) × Without 44 (codes s)

parts_of-All : (ms : List Mount) → All IsPlain ms → All IsEntry (parts_of ms)
parts_of-All [] h = tt
parts_of-All (m ∷ ms) h = elim (Bool-cases (is_empty m)) [
  | inl e ↦ rw e (parts_of-All ms h.1)
  | inr e ↦ rw e (
    (
      entry-All (λ c. is_space c ≡ false) m h.0.dns_solid refl h.0.path_solid,
      entry-All (λ c. nat_beq c 44 ≡ false) m h.0.dns_whole refl h.0.path_whole,
    ),
    parts_of-All ms h.1,
  )
]

joined-codes :
    (s t : String) (rest : List String)
    → codes (join "," (s ∷ t ∷ rest)) ≡ codes s ++ 44 ∷ codes (join "," (t ∷ rest))
joined-codes s t rest =
    codes-append s ("," <> join "," (t ∷ rest))
    ∙ ap (λ (cs : List ℕ). codes s ++ cs) (codes-append "," (join "," (t ∷ rest)))

join-IsSolid : (ss : List String) → All IsEntry ss → IsSolid (codes (join "," ss))
join-IsSolid [] h = tt
join-IsSolid (s ∷ []) h = h.0.0
join-IsSolid (s ∷ t ∷ rest) h = subst IsSolid (sym (joined-codes s t rest)) (
    All-append (λ c. is_space c ≡ false) (codes s) (44 ∷ codes (join "," (t ∷ rest))) h.0.0
      (refl, join-IsSolid (t ∷ rest) h.1))

split-join :
    (s : String) (rest : List String)
    → All IsEntry (s ∷ rest)
    → split 44 (codes (join "," (s ∷ rest))) ≡ map codes (s ∷ rest)
split-join s [] h = split-Without 44 (codes s) h.0.1
split-join s (t ∷ rest) h =
    ap (split 44) (joined-codes s t rest)
    ∙ split-append 44 (codes s) (codes (join "," (t ∷ rest))) h.0.1
    ∙ ap (λ (ws : List (List ℕ)). codes s ∷ ws) (split-join t rest h.1)

mounts-join :
    (ss : List String)
    → All IsEntry ss
    → mounts_of (split 44 (codes (join "," ss))) ≡ mounts_of (map codes ss)
unfolding mounts_of
mounts-join [] h = refl
mounts-join (s ∷ rest) h = ap mounts_of (split-join s rest h)

if_any-eq : (cs : List ℕ) → if_any cs ≡ mounts_of (split 44 cs)
unfolding mounts_of
if_any-eq [] = refl
if_any-eq (c ∷ cs) = refl

halves_full :
    (s t : String)
    → (s == "") ≡ false
    → (t == "") ≡ false
    → halves (some (codes s, codes t)) ≡ some (codes s, codes t)
halves_full String.[] t h k = absurd (ground arith)
halves_full (String.◌∷◌ c s) String.[] h k = absurd (ground arith)
halves_full (String.◌∷◌ c s) (String.◌∷◌ d t) h k = refl

read_entry :
    (m : Mount)
    → IsPlain m
    → is_empty m ≡ false
    → halves (cut 58 (trim_space (codes (entry m)))) ≡ some (mount_codes m)
read_entry m h e =
    ap (λ (cs : List ℕ). halves (cut 58 cs))
      (trim_space-IsSolid (codes (entry m))
          (entry-All (λ c. is_space c ≡ false) m h.dns_solid refl h.path_solid)
        ∙ entry-codes m)
    ∙ ap halves (cut-append 58 (codes m.dns) (codes m.path) h.dns_only)
    ∙ halves_full m.dns m.path (ground arith) (ground arith)

mounts-parts :
    (ms : List Mount)
    → All IsPlain ms
    → mounts_of (map codes (parts_of ms)) ≡ map mount_codes (complete ms)
unfolding mounts_of
mounts-parts [] h = refl
mounts-parts (m ∷ ms) h = elim (Bool-cases (is_empty m)) [
  | inl e ↦ rw e (mounts-parts ms h.1)
  | inr e ↦ rw e (
      ap (λ (o : Option (List ℕ × List ℕ)). add_some o (mounts_of (map codes (parts_of ms))))
        (read_entry m h.0 e)
      ∙ ap (λ (l : List (List ℕ × List ℕ)). mount_codes m ∷ l) (mounts-parts ms h.1))
]

-- ParseMountSpec reads from what FormatMountSpec writes the mounts that have both halves, in order, if
-- there is no space and no comma in the mounts and no colon in their DNS names. A path may have colons, and
-- is read back with them.
pub parse-format :
    (ms : List Mount)
    → All IsPlain ms
    → parse_mount_spec (codes (format_mount_spec ms)) ≡ map mount_codes (complete ms)
unfolding parse_mount_spec format_mount_spec
parse-format ms h =
    let entries = parts_of-All ms h in
    ap if_any
      (trim_space-IsSolid (codes (join "," (parts_of ms))) (join-IsSolid (parts_of ms) entries))
    ∙ if_any-eq (codes (join "," (parts_of ms)))
    ∙ mounts-join (parts_of ms) entries
    ∙ mounts-parts ms h
