-- ===== src/Asbb/Closing.antt =====
-- reconcileHold with the Client of the budget service as the Reconciler.
use queuezero.Prelude.{ℕ, String, ◌<>◌, Bool, true, false, Option, none, some, Result, ok, err}
use queuezero.Slurm.Bridge.{Hold, HoldError, HoldStore, Bridge}
use queuezero.Slurm.Holds.Once.{bill}
use queuezero.Asbb.{JobReconcileRequest, Response, Client, job_request, reconcile}
use queuezero.Asbb.Status.{is_success}

module _ {W : Type 0} (c : Client W) where
  -- A reply with a status from 200 to 299, whatever is in its body.
  abbrev pub has_success : Result String Response → Bool
  has_success (err e) = false
  has_success (ok resp) = is_success resp.status_code

  abbrev closed_at : String → Option String → String → W → Bool × W
  closed_at url (some e) body w = (false, w)
  closed_at url none body w = let (r, w') = c.post url body w in (has_success r, w')

  abbrev closed_with : Result String String → W → Bool × W
  closed_with (err e) w = (false, w)
  closed_with (ok body) w =
      let url = c.endpoint <> "/api/v1/budget/reconcile" in closed_at url (c.bad_url url) body w

  -- The service is asked once to close the hold.
  abbrev pub ask_to_close : JobReconcileRequest → W → Bool × W
  ask_to_close req w = closed_with (c.marshal_reconcile req) w

  module _ (store : HoldStore W) (id : String) where
    abbrev pub settle : Bool × W → W
    settle (true, w) = (store.delete id w).1
    settle (false, w) = w

    -- What is to happen to the hold that the store gives.
    abbrev pub close_by_service : String → ℕ → Result HoldError Hold × W → W
    close_by_service cluster now (err e, w) = w
    close_by_service cluster now (ok h, w) =
        settle (ask_to_close (job_request (bill cluster id now h)) w)

    abbrev pub with_client : Bridge W → Bridge W
    with_client b = record b { holds = some store; reconciler = some (reconcile c) }
