-- ===== src/Stores/Examples.antt =====
-- Stores of numbers, with a temporary file `.tmp-1`.
use queuezero.Prelude.{
  List, ℕ, ◌≡◌, refl, ap, sym, true, false, ◌&&◌, [], ◌∷◌, ◌++◌, arith, Bool-cases, inl, inr, some,
  if◌then◌else◌, ok, err,
}
use queuezero.Prelude.Texts.{codes, codes_eq}
use queuezero.Stores.{
  Name, Os, Format, encode_entity, encode_hold_entity, json, path, put, get, delete, not_found,
}
use queuezero.Stores.Names.{codes_eq_sound}
use queuezero.Stores.Outcomes.{Putting, Stored, put_outcome-Stored}
use queuezero.Stores.Refines.{is_ok, IsTemporary, record_format, hold_format, hold_store-refines}

last : Name → ℕ
last [] = 0
last (c ∷ []) = c
last (c ∷ d ∷ cs) = last (d ∷ cs)

last-json : (cs : Name) → last (cs ++ json) ≡ 110
unfolding last
last-json [] = refl
last-json (c ∷ []) = refl
last-json (c ∷ d ∷ cs) = last-json (d ∷ cs)

abbrev tmp : Name
tmp = codes ".tmp-1"

tmp_apart : (cs : Name) → codes_eq tmp (cs ++ json) ≡ false
unfolding last
tmp_apart cs = elim (Bool-cases (codes_eq tmp (cs ++ json))) [
  | inl same ↦
      let q = codes_eq_sound tmp (cs ++ json) same in
      absurd (omega (arith, ap last q, last-json cs))
  | inr other ↦ other
]

abbrev number_store : Format ℕ ℕ
number_store = record_format some some

records-IsTemporary : IsTemporary number_store tmp
unfolding path
records-IsTemporary e = tmp_apart (encode_entity (codes e))

abbrev number_holds : Format ℕ ℕ
number_holds = hold_format some some

holds-IsTemporary : IsTemporary number_holds tmp
unfolding path
holds-IsTemporary e = tmp_apart (encode_hold_entity (codes e))

abbrev working : Os ℕ
working = record {
  creates = true;
  writes = true;
  closes = true;
  renames = true;
  removes = true;
  reads = true;
  partial = 0;
}

hold_store-refines_example :
    (get number_holds true "a/b" (put number_holds working tmp "a%2Fb" 7 []).1 ≡ (
      if is_ok (put number_holds working tmp "a%2Fb" 7 []).0
        && codes_eq (codes "a%2Fb") (codes "a/b")
      then ok 7
      else get number_holds true "a/b" []))
    × (get number_holds true "a/b" (delete number_holds true "a%2Fb" []).1 ≡ (
        if is_ok (delete number_holds true "a%2Fb" []).0 && codes_eq (codes "a%2Fb") (codes "a/b")
        then err not_found
        else get number_holds true "a/b" []))
hold_store-refines_example =
    hold_store-refines some some working tmp "a%2Fb" "a/b" 7 true [] (λ a d h. sym h)
      holds-IsTemporary

-- The second record cannot be put.
abbrev two_puts : List (Putting ℕ ℕ)
two_puts =
    record { os = working; tmp = tmp; entity = "a"; kept = 7 }
    ∷ record { os = record working { renames = false }; tmp = tmp; entity = "b"; kept = 8 }
    ∷ []

put_outcome-Stored_example : Stored some some "a" two_puts []
put_outcome-Stored_example =
    put_outcome-Stored some some "a" two_puts [] (λ a d h. sym h) (omega arith)
      ((omega arith, records-IsTemporary), ((omega arith, records-IsTemporary), tt))
