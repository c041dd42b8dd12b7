-- ===== src/Aws/Client/Checks.antt =====
-- internal/substrate/aws/client.go: the calls of the Client that ask once, without a retry: the
-- four checks for the preflight, DescribeTagsByID, DescribeByTag and Tag. Of an offering, an image or a subnet only that it is
-- listed counts, so it is a text.
use queuezero.Prelude.{
  String, Bool, true, false, Option, none, some, List, [], ◌∷◌, ◌++◌, map, ◌==◌, if◌then◌else◌,
  Result, ok, err,
}
use queuezero.Aws.Errors.{GoError}
use queuezero.Aws.Classifier.{classify}
use queuezero.Aws.Retry.{Attempted}
use queuezero.Aws.Client.{Instance, Ec2Instance, instance_from_ec2}

-- Acquire, one call, and its error classified.
asked : {A : Type 0} → Option GoError → Result GoError A → Result GoError A
asked (some e) r = err e
asked none (ok a) = ok a
asked none (err e) = err (GoError.fault (classify e))

unfoldable pub ask_once : {A : Type 0} → Attempted A → Result GoError A
unfolding asked
ask_once k = asked k.acquired k.reply

abbrev pub is_listed : List String → Bool
is_listed [] = false
is_listed (x ∷ xs) = true

abbrev pub read_as : {A B : Type 0} → (A → B) → Result GoError A → Result GoError B
read_as f (ok a) = ok (f a)
read_as f (err e) = err e

-- Client.InstanceTypeOffered
unfoldable pub instance_type_offered : Attempted (List String) → Result GoError Bool
unfolding ask_once
instance_type_offered k = read_as is_listed (ask_once k)

-- Client.ImageExists
unfoldable pub image_exists : Attempted (List String) → Result GoError Bool
unfolding ask_once
image_exists k = read_as is_listed (ask_once k)

-- Client.SubnetExists
unfoldable pub subnet_exists : Attempted (List String) → Result GoError Bool
unfolding ask_once
subnet_exists k = read_as is_listed (ask_once k)

abbrev text_or_empty : Option String → String
text_or_empty none = ""
text_or_empty (some s) = s

-- Client.AvailabilityZones
unfoldable pub availability_zones : Attempted (List (Option String)) → Result GoError (List String)
unfolding ask_once
availability_zones k = read_as (map text_or_empty) (ask_once k)

-- Client.DescribeTagsByID: the map has the last value of a key that comes twice, and is empty where
-- the call fails.
abbrev set_tag : String → String → List (String × String) → List (String × String)
set_tag k v [] = (k, v) ∷ []
set_tag k v ((k', v') ∷ m) =
    let rest = set_tag k v m in if k == k' then (k, v) ∷ m else (k', v') ∷ rest

abbrev set_tags :
    List (Option String × Option String) → List (String × String) → List (String × String)
set_tags [] m = m
set_tags ((k, v) ∷ rest) m = set_tags rest (set_tag (text_or_empty k) (text_or_empty v) m)

pub describe_tags_by_id :
    Attempted (List (Option String × Option String)) → Result GoError (List (String × String))
describe_tags_by_id k = elim k.acquired [
  | some e ↦ err e
  | none ↦ (elim k.reply [ ok ts ↦ ok (set_tags ts []) | err e ↦ ok [] ])
]

-- Client.DescribeByTag: the reservations, each with its instances, in one list.
instances_of : List (List Ec2Instance) → List Instance
instances_of [] = []
instances_of (r ∷ rs) = map instance_from_ec2 r ++ instances_of rs

pub describe_by_tag : Attempted (List (List Ec2Instance)) → Result GoError (List Instance)
unfolding ask_once instances_of
describe_by_tag k = read_as instances_of (ask_once k)

-- Client.Tag: nothing is done for an empty map.
pub tag : List (String × String) → Attempted (Unit {0}) → Result GoError (Unit {0})
unfolding ask_once
tag [] k = ok tt
tag (kv ∷ rest) k = ask_once k
