-- ===== src/Mpi.antt =====
-- internal/mpi/enroller.go and assembler.go, and internal/slurm/domain.go, which passes on to them. Texts are
-- compared by their codes, which is the order of their bytes. The encoding to JSON is a parameter, and
-- the publisher a port that passes on the state `W` of what lies behind it.
pub mod Order
pub mod Reordered
pub mod Ranks
pub mod Examples
use queuezero.Prelude.{
  ℕ, suc, String, ◌<>◌, Bool, true, false, ◌||◌, ◌&&◌, Option, none, some, List, [], ◌∷◌, ◌==◌,
  if◌then◌else◌, Result, ok, err, nat_beq, ltb,
}
use queuezero.Prelude.Texts.{codes}
use queuezero.Cohort.Entity.{Observation, Readiness}

-- Enroller.IsEnrolled: the probe's answer, or enrolled where there is no probe.
abbrev trivially : Readiness
trivially = record { enrolled = true; operational = true; detail = "no readiness probe configured" }

pub is_enrolled :
    {W : Type 0}
    → Option (String → W → Result String Readiness × W)
    → String
    → W
    → Result String Readiness × W
is_enrolled none id w = (ok trivially, w)
is_enrolled (some probe) id w = probe id w

pub record Peer : Type 0 where
  pub rank : ℕ
  pub entity : String
  pub address : String

pub record PeerManifest : Type 0 where
  pub cohort : String
  pub peers : List Peer

-- `a` is not after `b`.
abbrev pub not_after : List ℕ → List ℕ → Bool
not_after [] b = true
not_after (x ∷ xs) [] = false
not_after (x ∷ xs) (y ∷ ys) = ltb x y || (nat_beq x y && not_after xs ys)

-- sort.Slice by the entity's ID, whose order among equal IDs is open: here the later stays behind.
abbrev pub insert : Observation → List Observation → List Observation
insert m [] = m ∷ []
insert m (n ∷ ns) =
    let further = n ∷ insert m ns in
    if not_after (codes m.id) (codes n.id) then m ∷ n ∷ ns else further

pub sort_by_id : List Observation → List Observation
sort_by_id [] = []
sort_by_id (m ∷ ms) = insert m (sort_by_id ms)

pub data AssembleError : Type 0 where
  zero_members no_publisher : AssembleError
  no_address : String → ℕ → AssembleError
  marshal_failed publish_failed : String → AssembleError

-- cohortKey
pub cohort_key : List Observation → String
cohort_key [] = "empty"
cohort_key (m ∷ ms) = m.id

-- manifestKey
pub manifest_key : String → String
manifest_key cohort = "manifests/" <> (cohort <> "/peers.json")

abbrev push : Peer → Result AssembleError (List Peer) → Result AssembleError (List Peer)
push p (ok ps) = ok (p ∷ ps)
push p (err e) = err e

-- The loop over the ordered members.
pub peers_from : ℕ → List Observation → Result AssembleError (List Peer)
peers_from rank [] = ok []
peers_from rank (m ∷ ms) =
    let rest = peers_from (suc rank) ms in
    if m.address == ""
    then err (no_address m.id rank)
    else push (record { rank = rank; entity = m.id; address = m.address }) rest

abbrev published : {W : Type 0} → Option String × W → Option AssembleError × W
published (none, w) = (none, w)
published (some e, w) = (some (publish_failed e), w)

module _ {W D : Type 0} (marshal : PeerManifest → Result String D)
    (publisher : Option (String → D → W → Option String × W)) where
  publish_to :
      Option (String → D → W → Option String × W) → String → D → W → Option AssembleError × W
  publish_to none key d w = (some no_publisher, w)
  publish_to (some publish) key d w = published (publish key d w)

  on_marshal : String → Result String D → W → Option AssembleError × W
  unfolding publish_to
  on_marshal key (err e) w = (some (marshal_failed e), w)
  on_marshal key (ok d) w = publish_to publisher key d w

  on_peers : String → Result AssembleError (List Peer) → W → Option AssembleError × W
  unfolding on_marshal manifest_key
  on_peers cohort (err e) w = (some e, w)
  on_peers cohort (ok ps) w =
      on_marshal (manifest_key cohort) (marshal (record { cohort = cohort; peers = ps })) w

  -- Assembler.Assemble
  pub assemble : List Observation → W → Option AssembleError × W
  unfolding on_peers
  assemble [] w = (some zero_members, w)
  assemble (m ∷ ms) w =
      let ordered = sort_by_id (m ∷ ms) in on_peers (cohort_key ordered) (peers_from 0 ordered) w
