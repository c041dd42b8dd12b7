-- ===== src/Aws/Classifier/Classes.antt =====
-- What the class of an error depends on.
use queuezero.Prelude.{
  ◌≡◌, refl, String, Bool, true, false, not, ◌&&◌, Option, none, some, List, [], ◌∷◌, arith, ◌↔◌,
  ◌⊎◌, Option-cases, ◌∙◌,
}
use queuezero.Cohort.State.{Fault, FaultClass}
use queuezero.Aws.Errors.{GoError, is_canceled, is_deadline, as_api, as_fault}
use queuezero.Aws.Classifier.{
  aws_fault_table, class_of_code, is_typed_transport_error, on_api, classify,
}

abbrev pub is_ambiguous : FaultClass → Bool
is_ambiguous FaultClass.ambiguous = true
is_ambiguous FaultClass.retryable_consistency = false
is_ambiguous FaultClass.throttle = false
is_ambiguous FaultClass.capacity_exhausted = false
is_ambiguous FaultClass.terminal = false

abbrev clear_rows : List (String × FaultClass) → Bool
clear_rows [] = true
clear_rows ((c, class) ∷ rest) = not (is_ambiguous class) && clear_rows rest

-- A table with no ambiguous row gives no ambiguous class.
clear_table :
    (rows : List (String × FaultClass)) (code : String)
    → clear_rows rows ≡ true
    → is_ambiguous (class_of_code rows code) ≡ false
unfolding class_of_code
clear_table [] code h = refl
clear_table ((c, class) ∷ rest) code h = ground (arith, clear_table rest code)

no_code_is_ambiguous : (code : String) → is_ambiguous (class_of_code aws_fault_table code) ≡ false
no_code_is_ambiguous code = clear_table aws_fault_table code refl

on_api-clear :
    (e : GoError) (o : Option (String × String)) → is_ambiguous (on_api e o).class ≡ false
on_api-clear e none = refl
on_api-clear e (some (code, message)) = no_code_is_ambiguous code

-- An error is classified as ambiguous exactly when it does not wrap context.Canceled and is a
-- timeout or a transport error: no code of the provider is.
pub classify_ambiguous_iff :
    (e : GoError)
    → ((classify e).class ≡ FaultClass.ambiguous)
      ↔ ((is_canceled e ≡ false) × ((is_deadline e ≡ true) ⊎ (is_typed_transport_error e ≡ true)))
unfolding classify
classify_ambiguous_iff e = ground (arith, on_api-clear e (as_api e))

-- The class and the code of an error are those of the error that it wraps, whatever text the
-- wrappers put before it.
pub classify-wrapped :
    (s : String) (e : GoError)
    → ((classify (GoError.wrapped s e)).class ≡ (classify e).class)
      × ((classify (GoError.wrapped s e)).code ≡ (classify e).code)
unfolding classify
classify-wrapped s e =
    (ground (arith, Option-cases (as_api e)), ground (arith, Option-cases (as_api e)))

-- Classify knows nothing of a *FaultError: an error that wraps one, and no other known error, is
-- Terminal with the code UnknownError, whatever fault it holds.
pub classify_forgets :
    (e : GoError) (f : Fault)
    → as_fault e ≡ some f
    → is_typed_transport_error e ≡ false
    → ((classify e).class ≡ FaultClass.terminal) × ((classify e).code ≡ "UnknownError")
unfolding classify
classify_forgets (GoError.fault g) f h t = (refl, refl)
classify_forgets (GoError.wrapped s e) f h t =
    let k = classify_forgets e f h t in let w = classify-wrapped s e in (w.0 ∙ k.0, w.1 ∙ k.1)
classify_forgets (GoError.url s e) f h t = absurd (ground arith)
classify_forgets GoError.canceled f h t = absurd (ground arith)
classify_forgets GoError.deadline_exceeded f h t = absurd (ground arith)
classify_forgets (GoError.net s) f h t = absurd (ground arith)
classify_forgets (GoError.plain s) f h t = absurd (ground arith)
classify_forgets (GoError.api c m) f h t = absurd (ground arith)
