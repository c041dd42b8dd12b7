-- ===== src/Spored/Ready.antt =====
-- What a ready answer of ReadReadiness rests on.
use queuezero.Prelude.{◌≡◌, refl, String, true, List, [], ◌∷◌, Result, ok, err}
use queuezero.Cohort.Entity.{Readiness}
use queuezero.Aws.Errors.{GoError}
use queuezero.Aws.Client.{Instance}
use queuezero.Aws.Actuator.{entity_filter}
use queuezero.Spored.{
  Tags, get_tag, is_enrolled, readiness_of, TagReader, from_tags, of_first, read_readiness,
}

-- The readiness is that of tags whose phase is enrolled, of the first instance that the lookup found.
pub record Found {W : Type 0} (reader : TagReader W) (filter : Tags) (w : W) (answer : Readiness)
    : Type 0 where
  first : Instance
  rest : List Instance
  after_lookup : W
  tags : Tags
  after : W
  looked_up : reader.describe_by_tag filter w ≡ (ok (first ∷ rest), after_lookup)
  tagged : reader.tags_by_id first.provider_id after_lookup ≡ (ok tags, after)
  answered : answer ≡ readiness_of tags
  phase : is_enrolled (get_tag "q0:phase" tags) ≡ true

module _ {W : Type 0} (reader : TagReader W) (filter : Tags) (w : W) where
  from_tags-Found :
      (i : Instance) (is : List Instance) (w1 : W) (d : Result GoError Tags × W)
      → reader.describe_by_tag filter w ≡ (ok (i ∷ is), w1)
      → reader.tags_by_id i.provider_id w1 ≡ d
      → (from_tags d).0.operational ≡ true
      → Found reader filter w (from_tags d).0
  unfolding readiness_of
  from_tags-Found i is w1 (err e, w2) looked tagged h = absurd cc
  from_tags-Found i is w1 (ok tags, w2) looked tagged h = record {
    first = i;
    rest = is;
    after_lookup = w1;
    tags = tags;
    after = w2;
    looked_up = looked;
    tagged = tagged;
    answered = refl;
    phase = h;
  }

  of_first-Found :
      (d : Result GoError (List Instance) × W)
      → reader.describe_by_tag filter w ≡ d
      → (of_first reader d).0.operational ≡ true
      → Found reader filter w (of_first reader d).0
  of_first-Found (err e, w1) looked h = absurd cc
  of_first-Found (ok [], w1) looked h = absurd cc
  of_first-Found (ok (i ∷ is), w1) looked h =
      from_tags-Found i is w1 (reader.tags_by_id i.provider_id w1) looked refl h

-- ReadReadiness answers operational only from tags that it read, of the first instance that its lookup
-- found, and whose phase is enrolled: a failed lookup, an empty one and failed tags are never ready.
pub read_readiness-Found :
    {W : Type 0} (reader : TagReader W) (cluster id : String) (w : W)
    → (read_readiness reader cluster id w).0.operational ≡ true
    → Found reader (entity_filter cluster id) w (read_readiness reader cluster id w).0
unfolding read_readiness
read_readiness-Found reader cluster id w h =
    let filter = entity_filter cluster id in
    of_first-Found reader filter w (reader.describe_by_tag filter w) refl h
