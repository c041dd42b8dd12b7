-- ===== src/Slurm/Holds.antt =====
-- internal/slurm/suspend.go: reconcileHold. Time is an argument. The actual cost is the rate times the
-- runtime, counted in the rate's unit times a nanosecond; a runtime below 0 is 0, as subtraction is.
-- The lines that are printed are left out.
pub mod Once
use queuezero.Prelude.{ℕ, ◌-◌, ◌*◌, String, ◌<>◌, Option, none, some, Result, ok, err}
use queuezero.Slurm.Bridge.{Hold, ReconcileRequest, HoldError, HoldStore, Bridge}

abbrev pub request_for : String → String → ℕ → Hold → ReconcileRequest
request_for cluster id now h = record {
  transaction_id = h.transaction_id;
  account = h.account;
  job_id = cluster <> ("/" <> id);
  actual_cost = h.hourly_rate * (now - h.started_at);
}

module _ {W : Type 0} where
  -- Delete, whose error is only printed.
  abbrev pub drop_hold : HoldStore W → String → W → W
  drop_hold holds id w = (holds.delete id w).1

  -- The answer of the budget service: after an error the hold stays.
  abbrev pub after_reconcile : HoldStore W → String → Option String × W → W
  after_reconcile holds id (none, w) = drop_hold holds id w
  after_reconcile holds id (some e, w) = w

  abbrev pub close_hold :
      HoldStore W
      → Option (ReconcileRequest → W → Option String × W)
      → String
      → String
      → ℕ
      → Hold
      → W
      → W
  close_hold holds none cluster id now h w = drop_hold holds id w
  close_hold holds (some reconcile) cluster id now h w =
      after_reconcile holds id (reconcile (request_for cluster id now h) w)

  abbrev pub on_hold :
      HoldStore W
      → Option (ReconcileRequest → W → Option String × W)
      → String
      → String
      → ℕ
      → Result HoldError Hold × W
      → W
  on_hold holds reconciler cluster id now (err e, w) = w
  on_hold holds reconciler cluster id now (ok h, w) = close_hold holds reconciler cluster id now h w

  abbrev pub with_store :
      Option (HoldStore W)
      → Option (ReconcileRequest → W → Option String × W)
      → String
      → String
      → ℕ
      → W
      → W
  with_store none reconciler cluster id now w = w
  with_store (some holds) reconciler cluster id now w =
      on_hold holds reconciler cluster id now (holds.get id w)

  -- Bridge.reconcileHold
  unfoldable pub reconcile_hold : Bridge W → String → ℕ → W → W
  reconcile_hold b id now w = with_store b.holds b.reconciler b.cluster id now w
