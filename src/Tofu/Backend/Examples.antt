-- ===== src/Tofu/Backend/Examples.antt =====
-- A cloud of one bucket and one table, whose reads may be late.
use queuezero.Prelude.{
  ◌≡◌, refl, ap, sym, String, if◌then◌else◌, Bool, true, false, Option, none, some, arith,
}
use queuezero.Tofu.Backend.{
  BackendConfig, BackendApi, ReadError, not_found, ensure_bucket, ensure_lock_table, after_bucket,
  ensure_backend,
}
use queuezero.Tofu.Backend.Idempotent.{IsBackend, HasBackend, OnlyReads, ensure_backend-idempotent}

-- Whether there are the bucket and the table, of whatever name.
abbrev Cloud : Type 0
Cloud = Bool × Bool

-- And whether the reads miss what is there.
abbrev World : Type 0
World = Cloud × Bool

abbrev inventory : World → Cloud
inventory w = w.0

abbrev answer : Bool → World → Option ReadError × World
answer true w = (if w.1 then some not_found else none, w)
answer false w = (some not_found, w)

abbrev make_table : World → Option String × World
make_table ((b, true), late) = (some "ResourceInUseException", ((b, true), late))
make_table ((b, false), late) = (none, ((b, true), late))

abbrev api : BackendApi World
api = record {
  head_bucket = λ b w. answer w.0.0 w;
  create_bucket = λ b l w. (none, ((true, w.0.1), w.1));
  describe_table = λ t w. answer w.0.1 w;
  create_table = λ t w. make_table w;
}

answer_reads : (b : Bool) (w : World) → inventory (answer b w).1 ≡ inventory w
answer_reads true w = refl
answer_reads false w = refl

answer_found : (b : Bool) (w : World) → (answer b w).0 ≡ none → b ≡ true
answer_found true w h = refl
answer_found false w h = absurd (ground arith)

make_table_made : (w : World) → (make_table w).0 ≡ none → (make_table w).1.0.1 ≡ true
make_table_made ((b, true), late) h = refl
make_table_made ((b, false), late) h = refl

make_table_again : (w : World) → w.0.1 ≡ true → inventory (make_table w).1 ≡ inventory w
make_table_again ((b, true), late) h = refl
make_table_again ((b, false), late) h = absurd (ground arith)

make_table_keeps : (w : World) → (make_table w).1.0.0 ≡ w.0.0
make_table_keeps ((b, true), late) = refl
make_table_keeps ((b, false), late) = refl

api-IsBackend : IsBackend api inventory (λ b i. i.0) (λ t i. i.1)
api-IsBackend = record {
  head_reads = λ b w. answer_reads w.0.0 w;
  head_found = λ b w. answer_found w.0.0 w;
  bucket_made = λ b l w h. refl;
  bucket_again = λ b l w h. ap (λ (x : Bool). (x, w.0.1)) (sym h);
  describe_reads = λ t w. answer_reads w.0.1 w;
  describe_found = λ t w. answer_found w.0.1 w;
  table_made = λ t w. make_table_made w;
  table_again = λ t w. make_table_again w;
  buckets_kept = λ t b w. make_table_keeps w;
}

abbrev state_of_hpc : BackendConfig
state_of_hpc = record {
  bucket = "state";
  lock_table = "locks";
  region = "eu-west-1";
  key = "hpc/terraform.tfstate";
}

-- At first there is neither; then both, which the reads miss.
abbrev empty : World
empty = ((false, false), false)

abbrev unseen : World
unseen = ((true, true), true)

empty_ensured : (ensure_backend api state_of_hpc empty).0 ≡ none
unfolding ensure_backend ensure_bucket after_bucket ensure_lock_table
empty_ensured = refl

unseen_same : inventory unseen ≡ inventory (ensure_backend api state_of_hpc empty).1
unfolding ensure_backend ensure_bucket after_bucket ensure_lock_table
unseen_same = refl

ensure_backend-idempotent_example :
    HasBackend api inventory
      (λ b i. i.0)
      (λ t i. i.1)
      api-IsBackend
      state_of_hpc
      (inventory (ensure_backend api state_of_hpc empty).1)
    × (inventory (ensure_backend api state_of_hpc unseen).1
        ≡ inventory (ensure_backend api state_of_hpc empty).1)
    × OnlyReads api inventory (λ b i. i.0) (λ t i. i.1) api-IsBackend state_of_hpc unseen
ensure_backend-idempotent_example =
    ensure_backend-idempotent api inventory (λ b i. i.0) (λ t i. i.1) api-IsBackend state_of_hpc
      empty unseen empty_ensured unseen_same
