-- ===== src/Slurm/Scontrol/Examples.antt =====
-- A hostlist of two ranges, and one with a second bracket.
use queuezero.Prelude.{pos, negsuc, ◌≡◌, refl, [], ◌∷◌, some, none, ok, err, arith}
use queuezero.Prelude.Texts.{codes}
use queuezero.Slurm.Scontrol.{
  HostlistError, atoi, padded, parse_range, halves_range, range_of, index_of, names_in,
  expand_parts, on_close, on_open, expand_hostlist,
}
use queuezero.Prelude.Texts.{decimal}
use queuezero.Slurm.Scontrol.Ranges.{
  span, single, print_hostlist, names_of_parts, expand_hostlist-ranges,
}

padded_seven : padded 3 7 ≡ codes "007"
unfolding decimal
padded_seven = refl

signs :
    (atoi (codes "+12") ≡ some (pos 12))
    × (atoi (codes "-12") ≡ some (negsuc 11))
    × (atoi (codes "9223372036854775808") ≡ none)
unfolding atoi
signs = (refl, refl, refl)

expanded :
    expand_hostlist (codes " gpu-[09-10,3] ")
    ≡ ok (codes "gpu-09" ∷ codes "gpu-10" ∷ codes "gpu-3" ∷ [])
unfolding expand_hostlist on_open on_close expand_parts parse_range halves_range range_of index_of
    names_in atoi decimal
expanded = refl

listed : expand_hostlist (codes "a, b,,c") ≡ ok (codes "a" ∷ codes "b" ∷ codes "c" ∷ [])
unfolding expand_hostlist on_open
listed = refl

unclosed : expand_hostlist (codes "a[1-2") ≡ err (HostlistError.malformed (codes "a[1-2"))
unfolding expand_hostlist on_open on_close
unclosed = refl

second_bracket :
    expand_hostlist (codes "a[1-2],b[3-4]") ≡ ok (codes "a1,b[3-4]" ∷ codes "a2,b[3-4]" ∷ [])
unfolding expand_hostlist on_open on_close expand_parts parse_range halves_range range_of index_of
    names_in atoi decimal
second_bracket = refl

expand_hostlist-ranges_example :
    expand_hostlist (print_hostlist (codes "gpu-") (codes "-ib") (span 3 9 3 10) (single 1 3 ∷ []))
    ≡ ok (names_of_parts (codes "gpu-") (codes "-ib") (span 3 9 3 10 ∷ single 1 3 ∷ []))
expand_hostlist-ranges_example =
    expand_hostlist-ranges (codes "gpu-") (codes "-ib") (span 3 9 3 10) (single 1 3 ∷ [])
      ((omega arith, omega arith), (omega arith, tt)) (refl, (refl, (refl, (refl, tt))))
      (refl, (refl, (refl, (refl, tt)))) (refl, (refl, (refl, (refl, tt))))
      (refl, (refl, (refl, tt)))
