-- ===== src/Asbb/Examples.antt =====
-- A service that has no budget left, and one that cannot be reached.
use queuezero.Prelude.{◌≡◌, ℕ, suc, false, none, ok, err}
use queuezero.Cohort.Entity.{Rung, on_demand}
use queuezero.Slurm.Admission.{ResumePorts, check_admission}
use queuezero.Slurm.Bridge.{Hold, HoldStore, Bridge}
use queuezero.Spec.Examples.{partition_of}
use queuezero.Asbb.{Client, admit}
use queuezero.Asbb.Gate.{decision_of, decide_after, ask_service, fleet_of, check_admission-decides}

-- The world counts the posts.
abbrev service : ℕ → Client ℕ
service status = record {
  endpoint = "http://budget";
  marshal_admission = λ r. ok r.account;
  marshal_reconcile = λ r. ok r.job_id;
  decode = λ body. ok (record {
    available = false;
    estimated_cost = 5;
    budget_remaining = 1;
    transaction_id = "";
    message = "";
    recommendation = "";
  });
  bad_url = λ url. none;
  post = λ url body w. (ok (record { status_code = status; status = "status"; body = "" }), suc w);
  two_decimals = λ n. "0.05";
}

abbrev desk : ResumePorts ℕ
desk = record {
  admit = λ req w. (err "", w);
  put_outcome = none;
  update_node = λ node state r w. (none, w);
  cluster = "hpc";
  region = "us-east-1";
  fail_mode = "strict";
}

abbrev first : Rung
first = record {
  instance_type = "c5.large";
  avail_zone = "us-east-1a";
  capacity_model = on_demand;
  account_id = "222";
  warm_start = false;
}

check_admission-decides_example :
    (
      decision_of
          (check_admission
            (record desk { admit = admit (service 503) })
            (partition_of "cpu" "spot")
            first
            4
            0).0,
      (check_admission
          (record desk { admit = admit (service 503) })
          (partition_of "cpu" "spot")
          first
          4
          0).1,
    )
    ≡ decide_after (service 503) "strict" (
        ask_service
          (service 503)
          (fleet_of (service 503) desk (partition_of "cpu" "spot") first 4)
          0)
check_admission-decides_example =
    check_admission-decides (service 503) desk (partition_of "cpu" "spot") first 4 0

abbrev kept : Hold
kept = record {
  entity = "a";
  transaction_id = "t-1";
  account = "222";
  partition = "cpu";
  hourly_rate = 3;
  started_at = 10;
}

abbrev shelf : HoldStore ℕ
shelf = record { get = λ id w. (ok kept, w); delete = λ id w. (none, suc w) }

abbrev bridge : Bridge ℕ
bridge = record {
  actuator = none;
  describer = none;
  holds = none;
  reconciler = none;
  cluster = "hpc";
  generation = "8";
}
