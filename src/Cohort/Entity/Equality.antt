-- ===== src/Cohort/Entity/Equality.antt =====
-- Go's `==` on rungs decides equality.
use queuezero.Prelude.{◌≡◌, refl, Bool, true, false, ◌↔◌, arith, eq_iff}
use queuezero.Cohort.Entity.{
  CapacityModel, on_demand, spot, reserved, capacity_eq, bool_eq, Rung, rung_eq,
}

capacity_eq_iff : (c d : CapacityModel) → (capacity_eq c d ≡ true) ↔ (c ≡ d)
unfolding capacity_eq
capacity_eq_iff on_demand on_demand = ground arith
capacity_eq_iff on_demand spot = ground arith
capacity_eq_iff on_demand reserved = ground arith
capacity_eq_iff spot on_demand = ground arith
capacity_eq_iff spot spot = ground arith
capacity_eq_iff spot reserved = ground arith
capacity_eq_iff reserved on_demand = ground arith
capacity_eq_iff reserved spot = ground arith
capacity_eq_iff reserved reserved = ground arith

bool_eq_iff : (b c : Bool) → (bool_eq b c ≡ true) ↔ (b ≡ c)
unfolding bool_eq
bool_eq_iff true true = ground arith
bool_eq_iff true false = ground arith
bool_eq_iff false true = ground arith
bool_eq_iff false false = ground arith

pub rung_eq_iff : (r s : Rung) → (rung_eq r s ≡ true) ↔ (r ≡ s)
unfolding rung_eq
rung_eq_iff r s = ground (
  arith,
  eq_iff r.instance_type s.instance_type,
  eq_iff r.avail_zone s.avail_zone,
  capacity_eq_iff r.capacity_model s.capacity_model,
  eq_iff r.account_id s.account_id,
  bool_eq_iff r.warm_start s.warm_start,
)

pub rung_eq_self : (r : Rung) → rung_eq r r ≡ true
rung_eq_self r = (rung_eq_iff r r).1 refl
