-- ===== src/Tofu/Backend/Idempotent.antt =====
-- EnsureBackend may be called before every apply.
use queuezero.Prelude.{
  ◌≡◌, refl, ap, ◌∙◌, sym, subst, ◌≢◌, ◌⊎◌, String, Bool, true, false, ◌||◌, Option, none, some,
  ◌==◌, if◌then◌else◌, arith, Bool-cases, inl, inr,
}
use queuezero.Tofu.Backend.{
  BackendConfig, ReadError, ensured, created, incomplete, BackendApi, BackendError,
  create_bucket_failed, create_table_failed, ensure_bucket, ensure_lock_table, after_bucket,
  ensure_backend, head_failed, describe_failed, location_of,
}
use queuezero.Tofu.Backend.Ensured.{ensure_there, ensure_untouched, ensure_keeps}

-- What S3 and DynamoDB promise while nobody deletes a bucket or a table, of the inventory of what there is. A
-- read leaves it and succeeds only for what is there; it may miss what is there, since it is eventually
-- consistent. A create that succeeds adds its resource; one of what is there already, whether it fails or not,
-- changes nothing of the inventory. The create of a table leaves the buckets.
pub record IsBackend {W I : Type 0} (api : BackendApi W) (inventory : W → I)
    (has_bucket has_table : String → I → Bool) : Type 0 where
  pub head_reads : (b : String) (w : W) → inventory (api.head_bucket b w).1 ≡ inventory w
  pub head_found :
      (b : String) (w : W) → (api.head_bucket b w).0 ≡ none → has_bucket b (inventory w) ≡ true
  pub bucket_made :
      (b : String) (l : Option String) (w : W)
      → (api.create_bucket b l w).0 ≡ none
      → has_bucket b (inventory (api.create_bucket b l w).1) ≡ true
  pub bucket_again :
      (b : String) (l : Option String) (w : W)
      → has_bucket b (inventory w) ≡ true
      → inventory (api.create_bucket b l w).1 ≡ inventory w
  pub describe_reads : (t : String) (w : W) → inventory (api.describe_table t w).1 ≡ inventory w
  pub describe_found :
      (t : String) (w : W) → (api.describe_table t w).0 ≡ none → has_table t (inventory w) ≡ true
  pub table_made :
      (t : String) (w : W)
      → (api.create_table t w).0 ≡ none
      → has_table t (inventory (api.create_table t w).1) ≡ true
  pub table_again :
      (t : String) (w : W)
      → has_table t (inventory w) ≡ true
      → inventory (api.create_table t w).1 ≡ inventory w
  pub buckets_kept :
      (t b : String) (w : W)
      → has_bucket b (inventory (api.create_table t w).1) ≡ has_bucket b (inventory w)

none-cases : {A : Type 0} (o : Option A) → (o ≡ none) ⊎ (o ≢ none)
none-cases none = inl refl
none-cases (some a) = inr (λ e. absurd (ground arith))

module _ {W I : Type 0} (api : BackendApi W) (inventory : W → I)
    (has_bucket has_table : String → I → Bool) (is : IsBackend api inventory has_bucket has_table)
    (cfg : BackendConfig) where
  abbrev pub HasBackend : I → Type 0
  HasBackend i = (has_bucket cfg.bucket i ≡ true) × (has_table cfg.lock_table i ≡ true)

  bucket_there :
      (w : W)
      → (ensure_bucket api cfg.bucket cfg.region w).0 ≡ none
      → has_bucket cfg.bucket (inventory (ensure_bucket api cfg.bucket cfg.region w).1) ≡ true
  unfolding ensure_bucket
  bucket_there w h =
      ensure_there inventory (has_bucket cfg.bucket) (api.head_bucket cfg.bucket)
        (api.create_bucket cfg.bucket (location_of cfg.region)) (is.head_reads cfg.bucket)
        (is.head_found cfg.bucket) (is.bucket_made cfg.bucket (location_of cfg.region))
        (is.bucket_again cfg.bucket (location_of cfg.region)) head_failed create_bucket_failed w h

  bucket_untouched :
      (w : W)
      → has_bucket cfg.bucket (inventory w) ≡ true
      → inventory (ensure_bucket api cfg.bucket cfg.region w).1 ≡ inventory w
  unfolding ensure_bucket
  bucket_untouched w h =
      ensure_untouched inventory (has_bucket cfg.bucket) (api.head_bucket cfg.bucket)
        (api.create_bucket cfg.bucket (location_of cfg.region)) (is.head_reads cfg.bucket)
        (is.head_found cfg.bucket) (is.bucket_made cfg.bucket (location_of cfg.region))
        (is.bucket_again cfg.bucket (location_of cfg.region)) head_failed create_bucket_failed w h

  table_there :
      (w : W)
      → (ensure_lock_table api cfg.lock_table w).0 ≡ none
      → has_table cfg.lock_table (inventory (ensure_lock_table api cfg.lock_table w).1) ≡ true
  unfolding ensure_lock_table
  table_there w h =
      ensure_there inventory (has_table cfg.lock_table) (api.describe_table cfg.lock_table)
        (api.create_table cfg.lock_table) (is.describe_reads cfg.lock_table)
        (is.describe_found cfg.lock_table) (is.table_made cfg.lock_table)
        (is.table_again cfg.lock_table) describe_failed create_table_failed w h

  table_untouched :
      (w : W)
      → has_table cfg.lock_table (inventory w) ≡ true
      → inventory (ensure_lock_table api cfg.lock_table w).1 ≡ inventory w
  unfolding ensure_lock_table
  table_untouched w h =
      ensure_untouched inventory (has_table cfg.lock_table) (api.describe_table cfg.lock_table)
        (api.create_table cfg.lock_table) (is.describe_reads cfg.lock_table)
        (is.describe_found cfg.lock_table) (is.table_made cfg.lock_table)
        (is.table_again cfg.lock_table) describe_failed create_table_failed w h

  table_keeps :
      (w : W)
      → has_bucket cfg.bucket (inventory (ensure_lock_table api cfg.lock_table w).1)
        ≡ has_bucket cfg.bucket (inventory w)
  unfolding ensure_lock_table
  table_keeps w =
      ensure_keeps inventory (has_table cfg.lock_table) (api.describe_table cfg.lock_table)
        (api.create_table cfg.lock_table) (is.describe_reads cfg.lock_table)
        (is.describe_found cfg.lock_table) (is.table_made cfg.lock_table)
        (is.table_again cfg.lock_table) describe_failed create_table_failed (has_bucket cfg.bucket)
        (is.buckets_kept cfg.lock_table cfg.bucket) w

  after_bucket_there :
      (r : Option BackendError × W)
      → (r.0 ≡ none → has_bucket cfg.bucket (inventory r.1) ≡ true)
      → (after_bucket api cfg r).0 ≡ none
      → HasBackend (inventory (after_bucket api cfg r).1)
  unfolding after_bucket
  after_bucket_there (some e, w) b h = absurd (ground arith)
  after_bucket_there (none, w) b h = (table_keeps w ∙ b refl, table_there w h)

  after_bucket_untouched :
      (r : Option BackendError × W) (i : I)
      → inventory r.1 ≡ i
      → has_table cfg.lock_table i ≡ true
      → inventory (after_bucket api cfg r).1 ≡ i
  unfolding after_bucket
  after_bucket_untouched (some e, v) i same t = same
  after_bucket_untouched (none, v) i same t =
      table_untouched v (ap (has_table cfg.lock_table) same ∙ t) ∙ same

  abbrev is_incomplete : Bool
  is_incomplete = (cfg.bucket == "") || ((cfg.lock_table == "") || (cfg.region == ""))

  backend_there :
      (w : W)
      → (ensure_backend api cfg w).0 ≡ none
      → HasBackend (inventory (ensure_backend api cfg w).1)
  unfolding ensure_backend
  backend_there w h = of_test is_incomplete h
    where
      of_test :
          (b : Bool)
          → (if b
              then (some incomplete, w)
              else after_bucket api cfg (ensure_bucket api cfg.bucket cfg.region w)).0
            ≡ none
          → HasBackend (
              inventory
                (if b
                  then (some incomplete, w)
                  else after_bucket api cfg (ensure_bucket api cfg.bucket cfg.region w)).1)
      of_test true k = absurd cc
      of_test false k =
          after_bucket_there (ensure_bucket api cfg.bucket cfg.region w) (bucket_there w) k

  backend_untouched :
      (w : W) → HasBackend (inventory w) → inventory (ensure_backend api cfg w).1 ≡ inventory w
  unfolding ensure_backend
  backend_untouched w h = elim (Bool-cases is_incomplete) [
    | inl e ↦ rw e refl
    | inr e ↦ rw e (
        after_bucket_untouched (ensure_bucket api cfg.bucket cfg.region w) (inventory w)
          (bucket_untouched w h.0) h.1)
  ]

  -- The call makes no create, and returns no error, unless a read does not find what it asks for.
  abbrev pub OnlyReads : W → Type 0
  OnlyReads w =
      ((api.head_bucket cfg.bucket w).0 ≢ none)
      ⊎ (((api.describe_table cfg.lock_table (api.head_bucket cfg.bucket w).1).0 ≢ none)
          ⊎ (ensure_backend api cfg w
              ≡ (none, (api.describe_table cfg.lock_table (api.head_bucket cfg.bucket w).1).1)))

  reads_found :
      (w : W)
      → is_incomplete ≡ false
      → (api.head_bucket cfg.bucket w).0 ≡ none
      → (api.describe_table cfg.lock_table (api.head_bucket cfg.bucket w).1).0 ≡ none
      → ensure_backend api cfg w
        ≡ (none, (api.describe_table cfg.lock_table (api.head_bucket cfg.bucket w).1).1)
  unfolding ensure_backend ensure_bucket after_bucket ensure_lock_table
  reads_found w whole head describe = rw whole (
      ap
        (λ (x : Option ReadError). after_bucket api cfg (
          ensured head_failed
            (λ v.
              created create_bucket_failed
                (api.create_bucket cfg.bucket (location_of cfg.region) v))
            (x, (api.head_bucket cfg.bucket w).1)))
        head
      ∙ ap
          (λ (x : Option ReadError).
            ensured describe_failed
              (λ v. created create_table_failed (api.create_table cfg.lock_table v))
              (x, (api.describe_table cfg.lock_table (api.head_bucket cfg.bucket w).1).1))
          describe)

  complete : (w : W) → (ensure_backend api cfg w).0 ≡ none → is_incomplete ≡ false
  unfolding ensure_backend
  complete w h = elim (Bool-cases is_incomplete) [ inl e ↦ absurd (ground arith) | inr e ↦ e ]

  only_reads : (w : W) → is_incomplete ≡ false → OnlyReads w
  only_reads w whole = elim (none-cases (api.head_bucket cfg.bucket w).0) [
    | inr n ↦ inl n
    | inl head ↦
        elim (none-cases (api.describe_table cfg.lock_table (api.head_bucket cfg.bucket w).1).0) [
          | inr n ↦ inr (inl n)
          | inl describe ↦ inr (inr (reads_found w whole head describe))
        ]
  ]

  -- Where S3 and DynamoDB keep what they promise while nobody deletes a bucket or a table: when EnsureBackend
  -- returns no error, the bucket and the table are there; and a further call, in any world that has the same
  -- buckets and tables, leaves them as they are, even where a read misses what is there; where both reads find
  -- what they ask for, it creates nothing and returns no error.
  pub ensure_backend-idempotent :
      (w later : W)
      → (ensure_backend api cfg w).0 ≡ none
      → inventory later ≡ inventory (ensure_backend api cfg w).1
      → HasBackend (inventory (ensure_backend api cfg w).1)
        × (inventory (ensure_backend api cfg later).1 ≡ inventory (ensure_backend api cfg w).1)
        × OnlyReads later
  ensure_backend-idempotent w later h same =
      let there = backend_there w h in
      (
        there,
        backend_untouched later (subst HasBackend (sym same) there) ∙ same,
        only_reads later (complete w h),
      )
