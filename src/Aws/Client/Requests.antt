-- ===== src/Aws/Client/Requests.antt =====
-- What RunInstance sends, and what it returns.
use queuezero.Prelude.{
  ℕ, ◌≤◌, ◌≡◌, refl, String, true, false, Option, none, some, List, [], ◌∷◌, arith, Result, ok, err,
  All, length, subst, sym, Option-cases, inl, inr,
}
use queuezero.Prelude.Counting.{count_if}
use queuezero.Cohort.State.{Fault}
use queuezero.Aws.Errors.{GoError}
use queuezero.Aws.Classifier.Classes.{is_ambiguous}
use queuezero.Aws.Retry.{Attempted, Calling, call_with_retry}
use queuezero.Aws.Retry.Bound.{call_with_retry_returns}
use queuezero.Aws.Retry.Surface.{Surfaced, throttled, is_throttle, call_with_retry_surfaces}
use queuezero.Aws.Client.{
  RunRequest, Instance, RunInput, Ec2Instance, first_instance, run_request_to_ec2, run_instance,
  answer,
}

-- A request for one instance with the token of `req`.
abbrev pub IsOneFor : RunRequest → RunInput → Type 0
IsOneFor req i = (i.client_token ≡ req.idempotency_token) × (i.min_count ≡ 1) × (i.max_count ≡ 1)

-- An instance, or a classified fault.
abbrev pub IsClassified : ℕ → Result GoError Instance → Type 0
IsClassified n (ok inst) = Unit {0}
IsClassified n (err (GoError.fault f)) =
    (is_ambiguous f.class ≡ false) × (is_throttle f.class ≡ true → 6 ≤ n)
IsClassified n (err _) = ⊥

first_instance-IsClassified :
    (n : ℕ) (r : Result Fault (List Ec2Instance)) → Surfaced n r → IsClassified n (first_instance r)
unfolding first_instance
first_instance-IsClassified n (err f) h = h
first_instance-IsClassified n (ok []) h = (refl, λ t. absurd cc)
first_instance-IsClassified n (ok (i ∷ is)) h = tt

all_one :
    (base64 : String → String) (req : RunRequest) (is : List RunInput)
    → All (λ i. i ≡ run_request_to_ec2 base64 req) is
    → All (IsOneFor req) is
unfolding run_request_to_ec2
all_one base64 req [] h = tt
all_one base64 req (i ∷ is) h =
    (subst (IsOneFor req) (sym h.0) (refl, refl, refl), all_one base64 req is h.1)

module _ (base64 : String → String) (req : RunRequest)
    (ks : List (Attempted (List Ec2Instance))) where
  answer-Requests :
      (o : Option (Result Fault (List Ec2Instance) × Calling RunInput))
      → call_with_retry (run_request_to_ec2 base64 req) ks ≡ o
      → (r : Result GoError Instance) (s : Calling RunInput) → answer first_instance o ≡ some (r, s)
      → IsClassified (count_if throttled ks) r × All (IsOneFor req) s.sent
  answer-Requests none q r s e = absurd (ground arith)
  answer-Requests (some (r', s')) q r s e =
      let (shown, sent) = call_with_retry_surfaces (run_request_to_ec2 base64 req) ks r' s' q in
      let a : first_instance r' ≡ r = ground arith in
      let b : s' ≡ s = ground arith in
      (
        subst (IsClassified (count_if throttled ks)) a (first_instance-IsClassified _ r' shown),
        subst (λ (x : Calling RunInput). All (IsOneFor req) x.sent) b
            (all_one base64 req s'.sent sent),
      )

  -- RunInstance returns by its 24th attempt. Each request that it sent asks for exactly one instance
  -- under the token of the intent; and an error that it returns is a classified fault, which is not
  -- ambiguous, and is a throttle only after six throttled attempts.
  pub run_instance_sound :
      24 ≤ length ks
      → (r : Result GoError Instance) × (s : Calling RunInput) × (run_instance base64 req ks
          ≡ some (r, s))
        × IsClassified (count_if throttled ks) r
        × All (IsOneFor req) s.sent
  unfolding run_instance
  run_instance_sound enough =
      elim (Option-cases (call_with_retry (run_request_to_ec2 base64 req) ks)) [
        | inl nothing ↦
            absurd
              (ground (arith, call_with_retry_returns (run_request_to_ec2 base64 req) ks enough))
        | inr ((r, s), q) ↦
            let (c, o) = answer-Requests (some (r, s)) q (first_instance r) s refl in
            (first_instance r, s, rw (q, answer) refl, c, o)
      ]
