-- ===== src/Slurm/Holds/Once.antt =====
-- A hold is charged once, over a store that forgets what it deletes without an error.
use queuezero.Prelude.{
  ℕ, ◌-◌, ◌*◌, ◌<>◌, ◌≡◌, sym, ap, ◌∙◌, String, Option, none, some, Result, ok, err,
}
use queuezero.Slurm.Bridge.{Hold, ReconcileRequest, HoldError, no_hold, HoldStore, Bridge}
use queuezero.Slurm.Holds.{after_reconcile, on_hold, with_store, reconcile_hold}

-- What HoldStore documents: Get changes nothing, and says ErrNoHold after a Delete that succeeds.
pub record IsHoldStore {W : Type 0} (store : HoldStore W) : Type 0 where
  pub reads : (id : String) (w : W) → (store.get id w).1 ≡ w
  pub forgets :
      (id : String) (w : W)
      → (store.delete id w).0 ≡ none
      → (store.get id (store.delete id w).1).0 ≡ err no_hold

-- What the budget service is to be asked: the transaction of the hold, for the job `cluster/node`, at the rate
-- times the time since the start.
abbrev pub bill : String → String → ℕ → Hold → ReconcileRequest
bill cluster id now h = record {
  transaction_id = h.transaction_id;
  account = h.account;
  job_id = cluster <> ("/" <> id);
  actual_cost = h.hourly_rate * (now - h.started_at);
}

module _ {W : Type 0} (store : HoldStore W) (law : IsHoldStore store)
    (reconciler : Option (ReconcileRequest → W → Option String × W)) (cluster id : String)
    (now : ℕ) where
  -- What reconcileHold does, from the answer of Get.
  by_answer :
      (w : W) (r : Result HoldError Hold)
      → (store.get id w).0 ≡ r
      → with_store (some store) reconciler cluster id now w
        ≡ on_hold store reconciler cluster id now (r, w)
  by_answer w r e =
      ap
        (λ (x : Result HoldError Hold).
          on_hold store reconciler cluster id now (x, (store.get id w).1))
        e
      ∙ ap (λ (v : W). on_hold store reconciler cluster id now (r, v)) (law.reads id w)

  nothing_left :
      (w : W)
      → (store.delete id w).0 ≡ none
      → with_store (some store) reconciler cluster id now (store.delete id w).1
        ≡ (store.delete id w).1
  nothing_left w deleted = by_answer (store.delete id w).1 (err no_hold) (law.forgets id w deleted)

module _ {W : Type 0} (b : Bridge W) (store : HoldStore W) (law : IsHoldStore store)
    (charge : ReconcileRequest → W → Option String × W) (holds : b.holds ≡ some store)
    (wired : b.reconciler ≡ some charge) where
  charged :
      (id : String) (now : ℕ) (w : W) (h : Hold)
      → (store.get id w).0 ≡ ok h
      → (charge (bill b.cluster id now h) w).0 ≡ none
      → reconcile_hold b id now w ≡ (store.delete id (charge (bill b.cluster id now h) w).1).1
  unfolding reconcile_hold
  charged id now w h found answer =
      rw (holds, wired)
        (by_answer store law (some charge) b.cluster id now w (ok h) found
          ∙ ap
              (λ (x : Option String).
                after_reconcile store id (x, (charge (bill b.cluster id now h) w).1))
              answer)

  -- Where a node has a hold, the budget service closes it under its transaction and account, for the job
  -- `cluster/node`, at the rate times the runtime, and the store deletes it without an error: reconcileHold
  -- asks for that and deletes, and a call for the node at any later time changes nothing, so that the hold is
  -- not charged twice.
  pub hold_charged_once :
      (id : String) (now later : ℕ) (w : W) (h : Hold)
      → (store.get id w).0 ≡ ok h
      → (charge (bill b.cluster id now h) w).0 ≡ none
      → (store.delete id (charge (bill b.cluster id now h) w).1).0 ≡ none
      → (reconcile_hold b id now w ≡ (store.delete id (charge (bill b.cluster id now h) w).1).1)
        × (reconcile_hold b id later (reconcile_hold b id now w) ≡ reconcile_hold b id now w)
  unfolding reconcile_hold
  hold_charged_once id now later w h found closed deleted =
      let done = charged id now w h found closed in
      (
        done,
        ap (reconcile_hold b id later) done
            ∙ rw (holds, wired) (nothing_left store law (some charge) b.cluster id later _ deleted)
            ∙ sym done,
      )
