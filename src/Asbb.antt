-- ===== src/Asbb.antt =====
-- internal/asbb/client.go: the Client of the budget service, as the Admitter of Resume and the
-- Reconciler of Suspend. JSON, the parsing of a URL, the transport and the printing of a cost with two
-- decimals are ports. A cost is a whole number, as in Slurm/Admission. The header of the request and the closing of
-- the body are left out.
pub mod Status
pub mod Gate
pub mod Closing
pub mod Examples
use queuezero.Prelude.{
  ℕ, String, ◌<>◌, Bool, true, false, ◌||◌, Option, none, some, ◌==◌, ltb, leb, if◌then◌else◌,
  Result, ok, err,
}
use queuezero.Slurm.Admission.{AdmissionRequest, AdmissionResult}
use queuezero.Slurm.Bridge.{ReconcileRequest}

-- fleetAdmissionRequest
pub record FleetAdmissionRequest : Type 0 where
  pub account : String
  pub partition : String
  pub region : String
  pub instance_type : String
  pub capacity_model : String
  pub count : ℕ

-- budgetCheckResponse
pub record BudgetCheckResponse : Type 0 where
  pub available : Bool
  pub estimated_cost : ℕ
  pub budget_remaining : ℕ
  pub transaction_id : String
  pub message : String
  pub recommendation : String

-- jobReconcileRequest
pub record JobReconcileRequest : Type 0 where
  pub job_id : String
  pub actual_cost : ℕ
  pub transaction_id : String

pub record Response : Type 0 where
  pub status_code : ℕ
  pub status : String
  pub body : String

-- The endpoint; json.Marshal and json.Decoder; the error of http.NewRequestWithContext for a URL;
-- http.Client.Do with a URL and a body; and the printing of a cost.
pub record Client (W : Type 0) : Type 0 where
  pub endpoint : String
  pub marshal_admission : FleetAdmissionRequest → Result String String
  pub marshal_reconcile : JobReconcileRequest → Result String String
  pub decode : String → Result String BudgetCheckResponse
  pub bad_url : String → Option String
  pub post : String → String → W → Result String Response × W
  pub two_decimals : ℕ → String

-- The first text that is not empty.
abbrev pub or_else : String → String → String
or_else s t = if s == "" then t else s

-- refusalReason
pub refusal_reason : (ℕ → String) → BudgetCheckResponse → String
refusal_reason two_decimals br =
    or_else (or_else br.message br.recommendation) "budget exhausted"
    <> (" (estimated $"
        <> (two_decimals br.estimated_cost
            <> ("/hr, remaining $" <> (two_decimals br.budget_remaining <> ")"))))

-- The request to admit a fleet, as the service is sent it.
abbrev pub fleet_request : AdmissionRequest → FleetAdmissionRequest
fleet_request req = record {
  account = req.account;
  partition = req.partition;
  region = req.region;
  instance_type = req.instance_type;
  capacity_model = req.capacity_model;
  count = req.count;
}

abbrev pub job_request : ReconcileRequest → JobReconcileRequest
job_request req = record {
  job_id = req.job_id;
  actual_cost = req.actual_cost;
  transaction_id = req.transaction_id;
}

abbrev pub is_refused_status : ℕ → Bool
is_refused_status code = ltb code 200 || leb 300 code

abbrev pub decoded : {A : Type 0} → Result String A → Result String A
decoded (ok a) = ok a
decoded (err e) = err ("asbb: decode response: " <> e)

-- What postJSON makes of the reply, where `read` is the decoder of `out`.
on_reply :
    {A : Type 0} → (String → Result String A) → String → Result String Response → Result String A
on_reply read url (err e) = err ("asbb: POST " <> (url <> (": " <> e)))
on_reply read url (ok resp) =
    if is_refused_status resp.status_code
    then err ("asbb: " <> (url <> (" returned " <> resp.status)))
    else decoded (read resp.body)

abbrev pub read_nothing : String → Result String (Unit {0})
read_nothing body = ok tt

abbrev pub error_only : {A W : Type 0} → Result String A × W → Option String × W
error_only (ok a, w) = (none, w)
error_only (err e, w) = (some e, w)

module _ {W : Type 0} (c : Client W) where
  -- Client.postJSON
  posted :
      {A : Type 0}
      → (String → Result String A)
      → String
      → String
      → Option String
      → W
      → Result String A × W
  unfolding on_reply
  posted read url body (some e) w = (err ("asbb: build request: " <> e), w)
  posted read url body none w = let (r, w') = c.post url body w in (on_reply read url r, w')

  pub post_json :
      {A : Type 0} → (String → Result String A) → String → String → W → Result String A × W
  unfolding posted
  post_json read path body w =
      let url = c.endpoint <> path in posted read url body (c.bad_url url) w

  result_of : Result String BudgetCheckResponse → Result String AdmissionResult
  unfolding refusal_reason
  result_of (err e) = err e
  result_of (ok br) = ok (record {
    allowed = br.available;
    reason = refusal_reason c.two_decimals br;
    estimated_cost = br.estimated_cost;
    budget_remaining = br.budget_remaining;
    transaction_id = br.transaction_id;
  })

  send_admission : Result String String → W → Result String AdmissionResult × W
  unfolding post_json result_of
  send_admission (err e) w = (err ("asbb: marshal request: " <> e), w)
  send_admission (ok body) w =
      let (r, w') = post_json c.decode "/api/v1/budget/admit" body w in (result_of r, w')

  -- Client.Admit
  pub admit : AdmissionRequest → W → Result String AdmissionResult × W
  unfolding send_admission
  admit req w = send_admission (c.marshal_admission (fleet_request req)) w

  send_reconcile : Result String String → W → Option String × W
  unfolding post_json
  send_reconcile (err e) w = (some ("asbb: marshal reconcile: " <> e), w)
  send_reconcile (ok body) w = error_only (post_json read_nothing "/api/v1/budget/reconcile" body w)

  -- Client.Reconcile
  pub reconcile : ReconcileRequest → W → Option String × W
  unfolding send_reconcile
  reconcile req w = send_reconcile (c.marshal_reconcile (job_request req)) w
