-- ===== src/Cohort/Entity/Accepted.antt =====
-- What NewEntityIntent makes of good arguments.
use queuezero.Prelude.{zero, String, ◌≡◌, ◌≢◌, List, All, arith, eq_iff, ok}
use queuezero.Cohort.Build.Viability.{IsRung, bad_rung_complete}
use queuezero.Cohort.Entity.{Rung, EntityIntent, new_entity_intent, token, valid_rung}

-- The intent that resume asks for: for the node, on the first rung, with the derived token.
abbrev pub intent_for :
    (String → String) → String → String → String → Rung → List Rung → String → EntityIntent
intent_for sum_hex cluster gen cohort_id first chain id = record {
  id = id;
  generation = gen;
  cohort = cohort_id;
  rung = first;
  fallback_chain = chain;
  idempotency_token = token sum_hex cluster id gen;
}

pub new_entity_intent_accepts :
    (sum_hex : String → String) (cluster gen cohort_id : String) (first : Rung) (chain : List Rung)
    (id : String)
    → id ≢ ""
    → IsRung first
    → All IsRung chain
    → new_entity_intent sum_hex cluster id gen cohort_id first chain ""
      ≡ ok (intent_for sum_hex cluster gen cohort_id first chain id)
unfolding new_entity_intent valid_rung
new_entity_intent_accepts sum_hex cluster gen cohort_id first chain id n r c =
    ground (arith, eq_iff id "", eq_iff first.instance_type "", bad_rung_complete zero chain c)
