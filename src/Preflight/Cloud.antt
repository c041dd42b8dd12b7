-- ===== src/Preflight/Cloud.antt =====
-- cmd/q0/main.go, preflightCmd with --no-quota: the Client of EC2 as the Checker of the preflight.
use queuezero.Prelude.{
  ◌≡◌, refl, ◌≢◌, String, true, Option, none, some, List, [], ◌∷◌, ◌==◌, Result, ok, err, arith,
  All, Bool-cases, inl, inr, eq_iff,
}
use queuezero.Spec.{SpecRung, Partition, mem_name}
use queuezero.Spec.Cluster.{Cluster}
use queuezero.Aws.Errors.{GoError, text_of}
use queuezero.Aws.Retry.{Attempted}
use queuezero.Aws.Client.Checks.{
  ask_once, is_listed, read_as, instance_type_offered, image_exists, subnet_exists,
  availability_zones,
}
use queuezero.Preflight.{Checker, report_ok, or_nothing, run}
use queuezero.Preflight.Collects.{
  says_yes, image_fine, subnets_fine, rungs_fine, partitions_fine, run-Reports,
}

-- What EC2 answers to each question.
pub record Ec2Reads : Type 0 where
  pub offerings : String → String → Attempted (List String)
  pub images : String → Attempted (List String)
  pub subnets : String → Attempted (List String)
  pub zones : Attempted (List (Option String))

-- The text of an error, in place of the error.
abbrev told : {A : Type 0} → Result GoError A → Result String A
told (ok a) = ok a
told (err e) = err (text_of e)

-- The checker that runs with --no-quota.
abbrev pub client_checker : Ec2Reads → Checker
client_checker c = record {
  instance_type_offered = λ t az. told (instance_type_offered (c.offerings t az));
  image_exists = λ ami. told (image_exists (c.images ami));
  subnet_exists = λ sn. told (subnet_exists (c.subnets sn));
  availability_zones = told (availability_zones c.zones);
  quota = none;
}

-- EC2 was asked, and lists something.
abbrev pub Listed : Attempted (List String) → Type 0
Listed k = (x : String) × (xs : List String) × (ask_once k ≡ ok (x ∷ xs))

says_yes-Listed :
    (k : Attempted (List String))
    → says_yes (told (read_as is_listed (ask_once k))) ≡ true
    → Listed k
says_yes-Listed k = of_reply (ask_once k)
  where
    of_reply :
        (r : Result GoError (List String))
        → says_yes (told (read_as is_listed r)) ≡ true
        → (x : String) × (xs : List String) × (r ≡ ok (x ∷ xs))
    of_reply (ok []) h = absurd cc
    of_reply (ok (x ∷ xs)) h = (x, xs, refl)
    of_reply (err e) h = absurd cc

module _ (c : Ec2Reads) where
  -- The zone is one of `zones`, and offers the instance type.
  abbrev pub IsOffered : List String → SpecRung → Type 0
  IsOffered zones r =
      (mem_name r.avail_zone zones ≡ true) × Listed (c.offerings r.instance_type r.avail_zone)

  -- EC2 has all that the specifications name.
  abbrev pub IsServed : Cluster → Option (List Partition) → Type 0
  IsServed cl parts =
      (zones : List String) × (availability_zones c.zones ≡ ok zones)
      × (cl.controller.ami_hash ≢ "" → Listed (c.images cl.controller.ami_hash))
      × (cl.network.byo ≡ true → All (λ sn. Listed (c.subnets sn)) cl.network.subnet_ids)
      × All (λ p. All (IsOffered zones) p.fallback_chain) (or_nothing parts)

  zones-told :
      (r : Result GoError (List String)) (zones : List String) → told r ≡ ok zones → r ≡ ok zones
  zones-told (ok zs) zones h = cc
  zones-told (err e) zones h = absurd cc

  image-Listed :
      (ami : String) → image_fine (client_checker c) ami ≡ true → ami ≢ "" → Listed (c.images ami)
  unfolding image_exists
  image-Listed ami h n = elim (Bool-cases (ami == "")) [
    | inl e ↦ absurd (n (ground (arith, eq_iff ami "")))
    | inr e ↦ says_yes-Listed (c.images ami) (ground arith)
  ]

  subnets-Listed :
      (sns : List String)
      → subnets_fine (client_checker c) sns ≡ true
      → All (λ sn. Listed (c.subnets sn)) sns
  unfolding subnet_exists
  subnets-Listed [] h = tt
  subnets-Listed (sn ∷ sns) h =
      (says_yes-Listed (c.subnets sn) (ground arith), subnets-Listed sns (ground arith))

  rungs-Listed :
      (zones : List String) (rs : List SpecRung)
      → rungs_fine (client_checker c) zones rs ≡ true
      → All (IsOffered zones) rs
  unfolding instance_type_offered
  rungs-Listed zones [] h = tt
  rungs-Listed zones (r ∷ rs) h = (
    (ground arith, says_yes-Listed (c.offerings r.instance_type r.avail_zone) (ground arith)),
    rungs-Listed zones rs (ground arith),
  )

  partitions-Listed :
      (zones : List String) (ps : List Partition)
      → partitions_fine (client_checker c) zones ps ≡ true
      → All (λ p. All (IsOffered zones) p.fallback_chain) ps
  partitions-Listed zones [] h = tt
  partitions-Listed zones (p ∷ ps) h = (
    rungs-Listed zones p.fallback_chain (ground arith),
    partitions-Listed zones ps (ground arith),
  )

  -- When the preflight with the Client of EC2 ends without an error and with a good report, EC2 listed all that
  -- the specifications name: the image of the controller, if one is named; every subnet of a network that is
  -- brought along; and for every rung of every partition its zone, and its instance type in that zone.
  pub passed-IsServed :
      (cl : Cluster) (parts : Option (List Partition))
      → (run (client_checker c) (some cl) parts).1 ≡ none
      → report_ok (run (client_checker c) (some cl) parts).0 ≡ true
      → IsServed cl parts
  passed-IsServed cl parts ended good =
      let (zones, q, e) = run-Reports (client_checker c) cl parts ended in
      (
        zones,
        zones-told (availability_zones c.zones) zones q,
        image-Listed cl.controller.ami_hash (ground arith),
        (λ byo. subnets-Listed cl.network.subnet_ids (ground arith)),
        partitions-Listed zones (or_nothing parts) (ground arith),
      )
