-- ===== src/Preflight/Collects.antt =====
-- What the report says.
use queuezero.Prelude.{
  ◌≡◌, refl, String, Bool, true, false, ◌&&◌, Option, none, some, List, [], ◌∷◌, ◌++◌, ◌==◌,
  if◌then◌else◌, Result, ok, err, arith, Bool-cases, inl, inr,
}
use queuezero.Spec.{SpecRung, Partition, mem_name}
use queuezero.Spec.Cluster.{Cluster}
use queuezero.Preflight.{
  Checker, Verdict, report_ok, Run, ◌and_then◌, note, note_quota, check_image, check_subnets,
  check_quota, check_rung, check_rungs, check_partitions, or_nothing, on_zones, run,
}

report_ok-append : (vs ws : List Verdict) → report_ok (vs ++ ws) ≡ (report_ok vs && report_ok ws)
unfolding report_ok
report_ok-append [] ws = refl
report_ok-append (v ∷ vs) ws = ground (arith, report_ok-append vs ws)

-- Where the run was not ended, the report of it is good if that before was, and the test passes.
abbrev Adds : List Verdict → Bool → Run → Type 0
Adds vs b r = r.1 ≡ none → report_ok r.0 ≡ (report_ok vs && b)

added-Adds : (vs : List Verdict) (v : Verdict) → Adds vs v.passed (vs ++ v ∷ [], none)
unfolding report_ok
added-Adds vs v h = ground (arith, report_ok-append vs (v ∷ []))

nothing-Adds : (vs : List Verdict) → Adds vs true (vs, none)
nothing-Adds vs h = ground arith

and_then-Adds :
    (vs : List Verdict) (a b : Bool) (r : Run) (f : List Verdict → Run)
    → Adds vs a r
    → ((ws : List Verdict) → Adds ws b (f ws))
    → Adds vs (a && b) (r and_then f)
and_then-Adds vs a b (ws, none) f h k e = ground (arith, h refl, k ws e)
and_then-Adds vs a b (ws, some x) f h k e = absurd (ground arith)

-- The answer is yes.
abbrev pub says_yes : Result String Bool → Bool
says_yes (ok b) = b
says_yes (err e) = false

abbrev pub quota_says_yes : Result String (Bool × String) → Bool
quota_says_yes (ok (b, detail)) = b
quota_says_yes (err e) = false

note-Adds :
    (what : String) (verdict : Bool → Verdict) (r : Result String Bool) (vs : List Verdict)
    → ((b : Bool) → (verdict b).passed ≡ b)
    → Adds vs (says_yes r) (note what verdict r vs)
note-Adds what verdict (ok b) vs h e = ground (arith, added-Adds vs (verdict b) refl, h b)
note-Adds what verdict (err x) vs h e = absurd (ground arith)

note_quota-Adds :
    (name target : String) (r : Result String (Bool × String)) (vs : List Verdict)
    → Adds vs (quota_says_yes r) (note_quota name target r vs)
note_quota-Adds name target (ok (b, detail)) vs e = added-Adds vs _ refl
note_quota-Adds name target (err x) vs e = absurd (ground arith)

module _ (c : Checker) where
  -- What is asked of the cloud, as one Boolean.
  abbrev pub image_fine : String → Bool
  image_fine ami = if ami == "" then true else says_yes (c.image_exists ami)

  abbrev pub subnets_fine : List String → Bool
  subnets_fine [] = true
  subnets_fine (sn ∷ sns) = says_yes (c.subnet_exists sn) && subnets_fine sns

  abbrev pub quota_fine :
      Option (String → String → String → Result String (Bool × String)) → SpecRung → Bool
  quota_fine none r = true
  quota_fine (some quota) r = quota_says_yes (quota r.instance_type r.avail_zone r.capacity_model)

  abbrev pub rung_fine : List String → SpecRung → Bool
  rung_fine zones r =
      mem_name r.avail_zone zones
      && (says_yes (c.instance_type_offered r.instance_type r.avail_zone) && quota_fine c.quota r)

  abbrev pub rungs_fine : List String → List SpecRung → Bool
  rungs_fine zones [] = true
  rungs_fine zones (r ∷ rs) = rung_fine zones r && rungs_fine zones rs

  abbrev pub partitions_fine : List String → List Partition → Bool
  partitions_fine zones [] = true
  partitions_fine zones (p ∷ ps) = rungs_fine zones p.fallback_chain && partitions_fine zones ps

  check_image-Adds :
      (ami : String) (vs : List Verdict) → Adds vs (image_fine ami) (check_image c ami vs)
  unfolding check_image
  check_image-Adds ami vs = elim (Bool-cases (ami == "")) [
    | inl e ↦ rw e (nothing-Adds vs)
    | inr e ↦ rw e (note-Adds _ _ (c.image_exists ami) vs (λ b. refl))
  ]

  check_subnets-Adds :
      (sns : List String) (vs : List Verdict) → Adds vs (subnets_fine sns) (check_subnets c sns vs)
  unfolding check_subnets
  check_subnets-Adds [] vs = nothing-Adds vs
  check_subnets-Adds (sn ∷ sns) vs =
      and_then-Adds vs (says_yes (c.subnet_exists sn)) (subnets_fine sns) _ (check_subnets c sns)
        (note-Adds _ _ (c.subnet_exists sn) vs (λ b. refl)) (check_subnets-Adds sns)

  check_quota-Adds :
      (q : Option (String → String → String → Result String (Bool × String))) (name : String)
      (r : SpecRung) (vs : List Verdict)
      → Adds vs (quota_fine q r) (check_quota c q name r vs)
  unfolding check_quota
  check_quota-Adds none name r vs = nothing-Adds vs
  check_quota-Adds (some quota) name r vs = note_quota-Adds _ _ _ vs

  module _ (region : String) (zones : List String) where
    check_rung-Adds :
        (name : String) (r : SpecRung) (vs : List Verdict)
        → Adds vs (rung_fine zones r) (check_rung c region zones name r vs)
    unfolding check_rung
    check_rung-Adds name r vs = elim (Bool-cases (mem_name r.avail_zone zones)) [
      | inl e ↦ rw e (
          and_then-Adds vs (says_yes (c.instance_type_offered r.instance_type r.avail_zone))
            (quota_fine c.quota r) _ _
            (note-Adds _ _ (c.instance_type_offered r.instance_type r.avail_zone) vs (λ b. refl))
            (check_quota-Adds c.quota name r))
      | inr e ↦ rw e (added-Adds vs _)
    ]

    check_rungs-Adds :
        (name : String) (rs : List SpecRung) (vs : List Verdict)
        → Adds vs (rungs_fine zones rs) (check_rungs c region zones name rs vs)
    unfolding check_rungs
    check_rungs-Adds name [] vs = nothing-Adds vs
    check_rungs-Adds name (r ∷ rs) vs =
        and_then-Adds vs (rung_fine zones r) (rungs_fine zones rs) _
          (check_rungs c region zones name rs) (check_rung-Adds name r vs)
          (check_rungs-Adds name rs)

    check_partitions-Adds :
        (ps : List Partition) (vs : List Verdict)
        → Adds vs (partitions_fine zones ps) (check_partitions c region zones ps vs)
    unfolding check_partitions
    check_partitions-Adds [] vs = nothing-Adds vs
    check_partitions-Adds (p ∷ ps) vs =
        and_then-Adds vs (rungs_fine zones p.fallback_chain) (partitions_fine zones ps) _
          (check_partitions c region zones ps) (check_rungs-Adds p.name p.fallback_chain vs)
          (check_partitions-Adds ps)

  brought-Adds :
      (byo : Bool) (sns : List String) (vs : List Verdict)
      → Adds vs
          (if byo then subnets_fine sns else true)
          (if byo then check_subnets c sns vs else (vs, none))
  brought-Adds true sns vs = check_subnets-Adds sns vs
  brought-Adds false sns vs = nothing-Adds vs

  -- The zones are known, and the report is good exactly when all is well in them.
  abbrev pub Reports : Cluster → Option (List Partition) → Run → Type 0
  Reports cl parts r =
      (zones : List String) × (c.availability_zones ≡ ok zones)
      × (report_ok r.0 ≡ (
          (image_fine cl.controller.ami_hash
            && (if cl.network.byo then subnets_fine cl.network.subnet_ids else true))
          && partitions_fine zones (or_nothing parts)))

  on_zones-Reports :
      (cl : Cluster) (parts : Option (List Partition)) (z : Result String (List String))
      → c.availability_zones ≡ z
      → (on_zones c cl parts z).1 ≡ none
      → Reports cl parts (on_zones c cl parts z)
  unfolding on_zones report_ok
  on_zones-Reports cl parts (err e) q h = absurd (ground arith)
  on_zones-Reports cl parts (ok zones) q h = (
    zones,
    q,
    and_then-Adds []
        (image_fine cl.controller.ami_hash
          && (if cl.network.byo then subnets_fine cl.network.subnet_ids else true))
        (partitions_fine zones (or_nothing parts)) _
        (check_partitions c cl.region zones (or_nothing parts))
        (and_then-Adds [] (image_fine cl.controller.ami_hash)
          (if cl.network.byo then subnets_fine cl.network.subnet_ids else true) _ _
          (check_image-Adds cl.controller.ami_hash [])
          (brought-Adds cl.network.byo cl.network.subnet_ids))
        (check_partitions-Adds cl.region zones (or_nothing parts)) h,
  )

  -- When Run ends without an error, its report is good exactly when the image of the controller is there,
  -- if it names one, all subnets are, if the network is brought along, and for every rung of every partition
  -- the zone is one of the region's, the instance type is offered there, and its quota suffices, where
  -- quotas can be asked: no check is passed over, whatever failed before it.
  pub run-Reports :
      (cl : Cluster) (parts : Option (List Partition))
      → (run c (some cl) parts).1 ≡ none
      → Reports cl parts (run c (some cl) parts)
  unfolding run
  run-Reports cl parts h = on_zones-Reports cl parts c.availability_zones refl h
