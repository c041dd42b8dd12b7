-- ===== src/Aws/Client.antt =====
-- internal/substrate/client.go, and internal/substrate/aws/client.go: the calls of the Client and the
-- conversions of their requests and replies. The types of the EC2 SDK are records with the fields
-- that the source reads or sets, and a nil pointer is `none`. A map of tags is the list of its
-- entries. Base64 is a parameter. Checks has the calls that ask once.
pub mod Checks
pub mod Requests
pub mod Examples
use queuezero.Prelude.{
  ℕ, String, Bool, true, false, not, Option, none, some, List, [], ◌∷◌, ◌++◌, map, ◌==◌,
  if◌then◌else◌, Result, ok, err,
}
use queuezero.Cohort.State.{Fault, FaultClass}
use queuezero.Aws.Errors.{GoError}
use queuezero.Aws.Classifier.{classify}
use queuezero.Aws.Retry.{Attempted, Calling, call_with_retry}

pub record RunRequest : Type 0 where
  pub instance_type : String
  pub avail_zone : String
  pub subnet_id : String
  pub security_group_ids : List String
  pub ami : String
  pub spot : Bool
  pub idempotency_token : String
  pub tags : List (String × String)
  pub iam_instance_arn : String
  pub efa : Bool
  pub placement_group : String
  pub user_data : String

pub record Instance : Type 0 where
  pub provider_id : String
  pub state : String
  pub private_addr : String
  pub instance_type : String
  pub avail_zone : String
  pub generation : String
  pub entity : String
  pub launch_time : ℕ

-- ec2.RunInstancesInput
pub record RunInput : Type 0 where
  pub image_id : String
  pub instance_type : String
  pub min_count : ℕ
  pub max_count : ℕ
  pub client_token : String
  pub tags : List (String × String)
  pub user_data : Option String
  pub subnet_id : Option String
  pub security_group_ids : List String
  pub iam_instance_arn : Option String
  pub spot : Bool
  pub placement : Option (Option String × String)

-- ec2types.Instance; the availability zone stands for the pointer to the placement.
pub record Ec2Instance : Type 0 where
  pub instance_id : Option String
  pub state_name : String
  pub instance_type : String
  pub private_ip_address : Option String
  pub avail_zone : Option String
  pub launch_time : Option ℕ
  pub tags : List (String × String)

abbrev unless_empty : String → Option String
unless_empty s = if s == "" then none else some s

-- The group and the zone of a placement, where there is one.
abbrev placement_of : RunRequest → Option (Option String × String)
placement_of req =
    if req.placement_group == ""
    then if req.avail_zone == "" then none else some (none, req.avail_zone)
    else some (some req.placement_group, req.avail_zone)

abbrev or_empty : Option String → String
or_empty none = ""
or_empty (some s) = s

abbrev or_zero : Option ℕ → ℕ
or_zero none = 0
or_zero (some n) = n

abbrev pub tag_generation : String
tag_generation = "q0:generation"

abbrev pub tag_entity : String
tag_entity = "q0:entity"

-- The loop over the tags.
read_tags : List (String × String) → Instance → Instance
read_tags [] inst = inst
read_tags ((k, v) ∷ rest) inst = read_tags rest (
    if k == tag_generation
    then record inst { generation = v }
    else if k == tag_entity
    then record inst { entity = v }
    else inst)

-- instanceFromEC2
pub instance_from_ec2 : Ec2Instance → Instance
unfolding read_tags
instance_from_ec2 i = read_tags i.tags (record {
  provider_id = or_empty i.instance_id;
  state = i.state_name;
  private_addr = or_empty i.private_ip_address;
  instance_type = i.instance_type;
  avail_zone = or_empty i.avail_zone;
  generation = "";
  entity = "";
  launch_time = or_zero i.launch_time;
})

abbrev empty_response : String → String → Fault
empty_response code message = record {
  class = FaultClass.terminal;
  code = code;
  retryable = false;
  message = message;
}

-- faultErr, for the errors of callWithRetry.
abbrev fault_err : {A : Type 0} → Result Fault A → Result GoError A
fault_err (ok a) = ok a
fault_err (err f) = err (GoError.fault f)

first_instance : Result Fault (List Ec2Instance) → Result GoError Instance
unfolding instance_from_ec2
first_instance (err f) = err (GoError.fault f)
first_instance (ok []) = err (
    GoError.fault (empty_response "EmptyRunInstancesResponse" "RunInstances returned no instances"))
first_instance (ok (i ∷ is)) = ok (instance_from_ec2 i)

-- The answer of a call, beside what it sent.
abbrev pub answer :
    {I A B : Type 0}
    → (Result Fault A → Result GoError B)
    → Option (Result Fault A × Calling I)
    → Option (Result GoError B × Calling I)
answer f none = none
answer f (some (r, s)) = some (f r, s)

module _ (base64 : String → String) where
  -- runRequestToEC2
  pub run_request_to_ec2 : RunRequest → RunInput
  run_request_to_ec2 req = record {
    image_id = req.ami;
    instance_type = req.instance_type;
    min_count = 1;
    max_count = 1;
    client_token = req.idempotency_token;
    tags = req.tags;
    user_data = if req.user_data == "" then none else some (base64 req.user_data);
    subnet_id = unless_empty req.subnet_id;
    security_group_ids = req.security_group_ids;
    iam_instance_arn = unless_empty req.iam_instance_arn;
    spot = req.spot;
    placement = placement_of req;
  }

  -- Client.RunInstance
  pub run_instance :
      RunRequest
      → List (Attempted (List Ec2Instance))
      → Option (Result GoError Instance × Calling RunInput)
  unfolding first_instance
  run_instance req ks = answer first_instance (call_with_retry (run_request_to_ec2 req) ks)

-- The instance id and the new state of the first change that StartInstances reports.
abbrev no_instance : Instance
no_instance = record {
  provider_id = "";
  state = "";
  private_addr = "";
  instance_type = "";
  avail_zone = "";
  generation = "";
  entity = "";
  launch_time = 0;
}

first_change : Result Fault (List (Option String × String)) → Result GoError Instance
first_change (err f) = err (GoError.fault f)
first_change (ok []) = err (
    GoError.fault
      (empty_response "EmptyStartInstancesResponse" "StartInstances returned no state changes"))
first_change (ok ((id, state) ∷ rest)) =
    ok (record no_instance { provider_id = or_empty id; state = state })

-- Client.StartInstance
pub start_instance :
    String
    → List (Attempted (List (Option String × String)))
    → Option (Result GoError Instance × Calling String)
unfolding first_change
start_instance id ks = answer first_change (call_with_retry id ks)

-- Client.StopInstance, whose request is the id and the flag to hibernate.
pub stop_instance :
    String
    → Bool
    → List (Attempted (Unit {0}))
    → Option (Result GoError (Unit {0}) × Calling (String × Bool))
stop_instance id hibernate ks = answer fault_err (call_with_retry (id, hibernate) ks)

-- Client.TerminateInstance
pub terminate_instance :
    String → List (Attempted (Unit {0})) → Option (Result GoError (Unit {0}) × Calling String)
terminate_instance id ks = answer fault_err (call_with_retry id ks)
