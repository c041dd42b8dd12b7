-- ===== src/Cohort/Race/Steps.antt =====
-- The interleavings of the goroutines, and of the cancellation of the parent context.
use queuezero.Prelude.{
  ℕ, ◌≡◌, refl, ap, ◌∙◌, String, Bool, true, false, Option, none, some, ◌⊎◌, get_elem?, is_some,
  length, length-set, arith,
}
use queuezero.Cohort.State.{Fault}
use queuezero.Cohort.Tracker.{Tracker}
use queuezero.Cohort.Phases.{Script, reconcile_entity}
use queuezero.Cohort.Phases.Finish.{cancel_seen}
use queuezero.Cohort.Race.{Member, Race, blame, critical, finish}

-- The contexts of the goroutines are cancelled.
abbrev pub IsCancelled : Race → Type 0
IsCancelled r = (r.fast_failed ≡ true) ⊎ (is_some r.parent ≡ true)

module _ {E : Type 0} (limited enroller : Bool) (classify : E → Fault) (min_viable : ℕ) where
  pub data Step (r u : Race) : Type 0 where
    cancel_parent :
        (cause : String) → r.parent ≡ none → u ≡ record r { parent = some cause } → Step r u
    end_member :
        (i now : ℕ) (s : Script E) (m : Member) (t : Tracker)
        → get_elem? r.members i ≡ some m
        → m.done ≡ false
        → reconcile_entity limited enroller classify s m.tracker ≡ some t
        → (cancel_seen s ≡ true → IsCancelled r)
        → u ≡ finish min_viable i now t r
        → Step r u

  pub data Reach (r : Race) : Race → Type 0 where
    here : Reach r r
    next : {u v : Race} → Reach r u → Step u v → Reach r v

blame-length :
    (min_viable now : ℕ) (t : Tracker) (f : Fault) (r : Race)
    → length (blame min_viable now t f r).members ≡ length r.members
unfolding blame
blame-length min_viable now t f r = ground arith

critical-length :
    (min_viable now : ℕ) (t : Tracker) (o : Option Fault) (r : Race)
    → length (critical min_viable now t o r).members ≡ length r.members
unfolding critical
critical-length min_viable now t none r = refl
critical-length min_viable now t (some f) r = blame-length min_viable now t f _

module _ {E : Type 0} (limited enroller : Bool) (classify : E → Fault) (min_viable : ℕ) where
  Step-length :
      (r u : Race)
      → Step limited enroller classify min_viable r u
      → length u.members ≡ length r.members
  unfolding finish
  Step-length r u (cancel_parent cause n e) = ap (λ (x : Race). length x.members) e
  Step-length r u (end_member i now s m t at waits ran cancel e) =
      ap (λ (x : Race). length x.members) e
      ∙ critical-length min_viable now t t.terminal _
      ∙ length-set r.members i (record { tracker = t; done = true })

  -- The goroutines neither add nor remove a member.
  pub Reach-length :
      (r u : Race)
      → Reach limited enroller classify min_viable r u
      → length u.members ≡ length r.members
  Reach-length r u here = refl
  Reach-length r u (next {u = w} p q) = Step-length w u q ∙ Reach-length r w p
