-- ===== src/Aws/Client/Examples.antt =====
-- A launch whose every call is throttled.
use queuezero.Prelude.{◌≡◌, String, false, List, [], ◌∷◌, some, All, Result, arith}
use queuezero.Prelude.Counting.{count_if}
use queuezero.Aws.Errors.{GoError}
use queuezero.Aws.Retry.{Calling}
use queuezero.Aws.Retry.Surface.{throttled}
use queuezero.Aws.Retry.Examples.{calls, many}
use queuezero.Aws.Client.{RunRequest, Instance, RunInput, Ec2Instance, run_instance}
use queuezero.Aws.Client.Requests.{IsOneFor, IsClassified, run_instance_sound}

abbrev request : RunRequest
request = record {
  instance_type = "c5.large";
  avail_zone = "us-east-1a";
  subnet_id = "";
  security_group_ids = [];
  ami = "ami-0";
  spot = false;
  idempotency_token = "q0-1";
  tags = ("q0:entity", "a") ∷ [];
  iam_instance_arn = "";
  efa = false;
  placement_group = "";
  user_data = "";
}

abbrev plain_text : String → String
plain_text s = s

run_instance_sound_example :
    (r : Result GoError Instance) × (s : Calling RunInput) × (run_instance plain_text request
        (calls many)
      ≡ some (r, s))
    × IsClassified (count_if throttled (calls {R = List Ec2Instance} many)) r
    × All (IsOneFor request) s.sent
run_instance_sound_example = run_instance_sound plain_text request (calls many) (omega arith)
