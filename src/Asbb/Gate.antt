-- ===== src/Asbb/Gate.antt =====
-- checkAdmission with the Client of the budget service as the Admitter.
use queuezero.Prelude.{
  ◌≡◌, refl, ap, ℕ, String, ◌<>◌, Bool, true, false, Option, none, some, ◌==◌, if◌then◌else◌,
  Result, ok, err, Bool-cases, inl, inr,
}
use queuezero.Spec.{Partition}
use queuezero.Cohort.Entity.{Rung}
use queuezero.Slurm.Admission.{
  AdmissionResult, ResumePorts, Verdict, refused, admitted, verdict_of, check_admission,
  capacity_model_string,
}
use queuezero.Asbb.{
  FleetAdmissionRequest, BudgetCheckResponse, Response, Client, is_refused_status, decoded,
  on_reply, posted, post_json, result_of, send_admission, admit,
}
use queuezero.Asbb.Status.{is_success, status_tests}

-- A refusal or not, and the transaction of the hold that was placed, if the service placed one.
abbrev pub Decision : Type 0
Decision = Bool × Option String

abbrev pub decision_of : Verdict → Decision
decision_of (refused reason) = (true, none)
decision_of (admitted none) = (false, none)
decision_of (admitted (some r)) = (false, some r.transaction_id)

-- What is to be decided, where the service answered or did not.
abbrev pub decide : String → Option BudgetCheckResponse → Decision
decide fail_mode none = (fail_mode == "strict", none)
decide fail_mode (some br) = if br.available then (false, some br.transaction_id) else (true, none)

abbrev read_ok : Result String BudgetCheckResponse → Option BudgetCheckResponse
read_ok (ok br) = some br
read_ok (err e) = none

module _ {W : Type 0} (c : Client W) where
  -- The answer of the service: a reply with a status from 200 to 299 and a body that decodes.
  abbrev pub answer_in : Result String Response → Option BudgetCheckResponse
  answer_in (err e) = none
  answer_in (ok resp) = if is_success resp.status_code then read_ok (c.decode resp.body) else none

  abbrev asked_at : String → Option String → String → W → Option BudgetCheckResponse × W
  asked_at url (some e) body w = (none, w)
  asked_at url none body w = let (r, w') = c.post url body w in (answer_in r, w')

  abbrev asked_with : Result String String → W → Option BudgetCheckResponse × W
  asked_with (err e) w = (none, w)
  asked_with (ok body) w =
      let url = c.endpoint <> "/api/v1/budget/admit" in asked_at url (c.bad_url url) body w

  -- The service is asked once, about the whole fleet.
  abbrev pub ask_service : FleetAdmissionRequest → W → Option BudgetCheckResponse × W
  ask_service req w = asked_with (c.marshal_admission req) w

  failed-decide :
      (fail_mode e : String) → decision_of (verdict_of fail_mode (err e)) ≡ decide fail_mode none
  unfolding verdict_of
  failed-decide fail_mode e = elim (Bool-cases (fail_mode == "strict")) [
    | inl s ↦ rw s refl
    | inr s ↦ rw s refl
  ]

  answered-decide :
      (fail_mode : String) (br : BudgetCheckResponse)
      → decision_of (verdict_of fail_mode (result_of c (ok br))) ≡ decide fail_mode (some br)
  unfolding verdict_of result_of
  answered-decide fail_mode br = elim (Bool-cases br.available) [
    | inl a ↦ rw a refl
    | inr a ↦ rw a refl
  ]

  decoded-decide :
      (fail_mode : String) (d : Result String BudgetCheckResponse)
      → decision_of (verdict_of fail_mode (result_of c (decoded d))) ≡ decide fail_mode (read_ok d)
  unfolding result_of
  decoded-decide fail_mode (ok br) = answered-decide fail_mode br
  decoded-decide fail_mode (err e) = failed-decide fail_mode _

  reply-decide :
      (fail_mode url : String) (r : Result String Response)
      → decision_of (verdict_of fail_mode (result_of c (on_reply c.decode url r)))
        ≡ decide fail_mode (answer_in r)
  unfolding result_of on_reply
  reply-decide fail_mode url (err e) = failed-decide fail_mode _
  reply-decide fail_mode url (ok resp) = elim (Bool-cases (is_refused_status resp.status_code)) [
    | inl s ↦ rw (status_tests resp.status_code, s) (failed-decide fail_mode _)
    | inr s ↦ rw (status_tests resp.status_code, s) (decoded-decide fail_mode (c.decode resp.body))
  ]

  abbrev decision_after : String → Result String AdmissionResult × W → Decision × W
  decision_after fail_mode (r, w) = (decision_of (verdict_of fail_mode r), w)

  abbrev pub decide_after : String → Option BudgetCheckResponse × W → Decision × W
  decide_after fail_mode (a, w) = (decide fail_mode a, w)

  posted-decide :
      (fail_mode url body : String) (bad : Option String) (w : W)
      → decision_after fail_mode
          (result_of c (posted c c.decode url body bad w).0, (posted c c.decode url body bad w).1)
        ≡ decide_after fail_mode (asked_at url bad body w)
  unfolding posted result_of
  posted-decide fail_mode url body (some e) w =
      ap (λ (d : Decision). (d, w)) (failed-decide fail_mode _)
  posted-decide fail_mode url body none w =
      ap (λ (d : Decision). (d, (c.post url body w).1))
        (reply-decide fail_mode url (c.post url body w).0)

  sent-decide :
      (fail_mode : String) (m : Result String String) (w : W)
      → decision_after fail_mode (send_admission c m w) ≡ decide_after fail_mode (asked_with m w)
  unfolding send_admission post_json
  sent-decide fail_mode (err e) w = ap (λ (d : Decision). (d, w)) (failed-decide fail_mode _)
  sent-decide fail_mode (ok body) w =
      let url = c.endpoint <> "/api/v1/budget/admit" in
      posted-decide fail_mode url body (c.bad_url url) w

  -- What checkAdmission asks for.
  abbrev pub fleet_of : ResumePorts W → Partition → Rung → ℕ → FleetAdmissionRequest
  fleet_of ports part rung count = record {
    account = part.execution_account;
    partition = part.name;
    region = ports.region;
    instance_type = rung.instance_type;
    capacity_model = capacity_model_string rung.capacity_model;
    count = count;
  }

  -- With the Client of the budget service as the Admitter, the service is asked at most once, about the
  -- whole fleet on the rung. The fleet is refused exactly when the service answers that the budget is
  -- not available, or when it gives no answer, for whatever reason, and the fail mode is strict. A
  -- hold is kept only where the service answers that the budget is available, and is the one it placed.
  pub check_admission-decides :
      (ports : ResumePorts W) (part : Partition) (rung : Rung) (count : ℕ) (w : W)
      → let v = check_admission (record ports { admit = admit c }) part rung count w in
        (decision_of v.0, v.1)
        ≡ decide_after ports.fail_mode (ask_service (fleet_of ports part rung count) w)
  unfolding check_admission admit
  check_admission-decides ports part rung count w =
      sent-decide ports.fail_mode (c.marshal_admission (fleet_of ports part rung count)) w
