-- ===== src/Aws/Retry/Examples.antt =====
-- Calls of EC2 that succeed, and that are throttled.
use queuezero.Prelude.{
  ℕ, ◌≡◌, refl, true, String, List, [], ◌∷◌, none, some, ok, err, is_some, arith,
}
use queuezero.Prelude.Loop.{loop}
use queuezero.Aws.Errors.{GoError}
use queuezero.Aws.Retry.{Attempted, Calling, call_with_retry, call_turn, on_acquired, on_result}
use queuezero.Aws.Retry.Bound.{call_with_retry_returns}

abbrev pub slow_down : GoError
slow_down = GoError.api "Throttling" "Rate exceeded"

abbrev pub eight : List ℕ
eight = 0 ∷ 1 ∷ 2 ∷ 3 ∷ 4 ∷ 5 ∷ 6 ∷ 7 ∷ []

abbrev pub calls {ℓ} : {R : Type ℓ} → List ℕ → List (Attempted R)
calls [] = []
calls (d ∷ ds) = record { acquired = none; reply = err slow_down; ctx = none; draw = d } ∷ calls ds

abbrev pub many : List ℕ
many =
    0 ∷ 1 ∷ 2 ∷ 3 ∷ 4 ∷ 5 ∷ 6 ∷ 7 ∷ 8 ∷ 9 ∷ 10 ∷ 11 ∷ 12 ∷ 13 ∷ 14 ∷ 15 ∷ 16 ∷ 17 ∷ 18 ∷ 19 ∷ 20
    ∷ 21 ∷ 22 ∷ 23 ∷ []

call_with_retry_returns_example :
    is_some (call_with_retry {I = String} {R = ℕ} "i-0" (calls many)) ≡ true
call_with_retry_returns_example = call_with_retry_returns "i-0" (calls many) (omega arith)

-- A first call that is answered.
abbrev answered : List (Attempted ℕ)
answered = record { acquired = none; reply = ok 3; ctx = none; draw = 0 } ∷ []

abbrev once : Calling String
once = record { throttle_attempt = 0; ambiguous_attempt = 0; sent = "i-0" ∷ []; backoffs = [] }

one_call : call_with_retry "i-0" answered ≡ some (ok 3, once)
unfolding call_with_retry loop call_turn on_acquired on_result
one_call = refl
