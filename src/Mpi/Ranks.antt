-- ===== src/Mpi/Ranks.antt =====
-- The manifest that is published.
use queuezero.Prelude.{
  ℕ, suc, ◌≡◌, ◌≢◌, refl, ap, sym, String, List, [], ◌∷◌, arith, Option, some, none, Result, ok,
  err, length, Bool-cases, inl, inr, ◌==◌, eq_iff,
}
use mathlib.Core.List.{Perm}
use mathlib.Core.List.Perm
use queuezero.Prelude.Texts.{codes}
use queuezero.Cohort.Entity.{Observation}
use queuezero.Mpi.{
  Peer, PeerManifest, AssembleError, not_after, insert, sort_by_id, cohort_key, manifest_key,
  peers_from, push, published, publish_to, on_marshal, on_peers, assemble,
}
use queuezero.Mpi.Order.{IsOrdered, sort_by_id-IsOrdered}

-- The peers are the members in order, each with the next rank and its own address, which is not empty.
abbrev pub Ranked : ℕ → List Observation → List Peer → Type 0
Ranked r [] [] = Unit {0}
Ranked r [] (p ∷ ps) = ⊥
Ranked r (m ∷ ms) [] = ⊥
Ranked r (m ∷ ms) (p ∷ ps) =
    (p.rank ≡ r)
    × (p.entity ≡ m.id)
    × (p.address ≡ m.address)
    × (m.address ≢ "")
    × Ranked (suc r) ms ps

abbrev peer_of : ℕ → Observation → Peer
peer_of r m = record { rank = r; entity = m.id; address = m.address }

pushed :
    (r : ℕ) (m : Observation) (ms : List Observation) (rest : Result AssembleError (List Peer))
    (ps : List Peer)
    → m.address ≢ ""
    → push (peer_of r m) rest ≡ ok ps
    → ((qs : List Peer) → rest ≡ ok qs → Ranked (suc r) ms qs)
    → Ranked r (m ∷ ms) ps
pushed r m ms (err e) ps there h ranked = absurd (ground arith)
pushed r m ms (ok qs) [] there h ranked = absurd (ground arith)
pushed r m ms (ok qs) (p ∷ ps) there h ranked =
    let e : peer_of r m ≡ p = ground arith in
    let q : qs ≡ ps = ground arith in
    (
      sym (ap (λ (x : Peer). x.rank) e),
      sym (ap (λ (x : Peer). x.entity) e),
      sym (ap (λ (x : Peer). x.address) e),
      there,
      ranked ps (ap ok q),
    )

peers_from-Ranked :
    (r : ℕ) (ms : List Observation) (ps : List Peer) → peers_from r ms ≡ ok ps → Ranked r ms ps
unfolding peers_from
peers_from-Ranked r [] [] h = tt
peers_from-Ranked r [] (p ∷ ps) h = absurd (ground arith)
peers_from-Ranked r (m ∷ ms) ps h = elim (Bool-cases (m.address == "")) [
  | inl missing ↦ absurd (ground arith)
  | inr there ↦
      pushed r m ms (peers_from (suc r) ms) ps (ground (arith, eq_iff m.address "")) (ground arith)
        (λ qs q. peers_from-Ranked (suc r) ms qs q)
]

insert-Perm : (m : Observation) (ms : List Observation) → Perm (insert m ms) (m ∷ ms)
insert-Perm m [] = Perm.refl (m ∷ [])
insert-Perm m (n ∷ ns) = elim (Bool-cases (not_after (codes m.id) (codes n.id))) [
  | inl first ↦ rw first (Perm.refl (m ∷ n ∷ ns))
  | inr later ↦ rw later (Perm.trans (Perm.cons n (insert-Perm m ns)) (Perm.swap m n ns))
]

sort_by_id-Perm : (ms : List Observation) → Perm (sort_by_id ms) ms
unfolding sort_by_id
sort_by_id-Perm [] = Perm.refl []
sort_by_id-Perm (m ∷ ms) =
    Perm.trans (insert-Perm m (sort_by_id ms)) (Perm.cons m (sort_by_id-Perm ms))

Ranked-length :
    (r : ℕ) (ms : List Observation) (ps : List Peer) → Ranked r ms ps → length ps ≡ length ms
Ranked-length r [] [] h = refl
Ranked-length r [] (p ∷ ps) h = absurd h
Ranked-length r (m ∷ ms) [] h = absurd h
Ranked-length r (m ∷ ms) (p ∷ ps) h = ap suc (Ranked-length (suc r) ms ps h.4)

module _ {W D : Type 0} (marshal : PeerManifest → Result String D)
    (publish : String → D → W → Option String × W) where
  -- What one call of the publisher was asked to publish, and did.
  pub record Published (ordered : List Observation) (w after : W) : Type 0 where
    peers : List Peer
    payload : D
    marshalled : marshal (record { cohort = cohort_key ordered; peers = peers }) ≡ ok payload
    ranked : Ranked 0 ordered peers
    complete : length peers ≡ length ordered
    done : publish (manifest_key (cohort_key ordered)) payload w ≡ (none, after)

  on_publish :
      (os : List Observation) (ps : List Peer) (d : D) (w : W) (r : Option String × W)
      → marshal (record { cohort = cohort_key os; peers = ps }) ≡ ok d
      → Ranked 0 os ps
      → publish (manifest_key (cohort_key os)) d w ≡ r
      → (published r).0 ≡ none
      → Published os w (published r).1
  on_publish os ps d w (none, v) m ranked q h = record {
    peers = ps;
    payload = d;
    marshalled = m;
    ranked = ranked;
    complete = Ranked-length 0 os ps ranked;
    done = q;
  }
  on_publish os ps d w (some e, v) m ranked q h = absurd (ground arith)

  on_marshal-Published :
      (os : List Observation) (ps : List Peer) (x : Result String D) (w : W)
      → marshal (record { cohort = cohort_key os; peers = ps }) ≡ x
      → Ranked 0 os ps
      → (on_marshal marshal (some publish) (manifest_key (cohort_key os)) x w).0 ≡ none
      → Published os w (on_marshal marshal (some publish) (manifest_key (cohort_key os)) x w).1
  unfolding on_marshal publish_to
  on_marshal-Published os ps (err e) w m ranked h = absurd (ground arith)
  on_marshal-Published os ps (ok d) w m ranked h =
      on_publish os ps d w (publish (manifest_key (cohort_key os)) d w) m ranked refl h

  on_peers-Published :
      (os : List Observation) (x : Result AssembleError (List Peer)) (w : W)
      → peers_from 0 os ≡ x
      → (on_peers marshal (some publish) (cohort_key os) x w).0 ≡ none
      → Published os w (on_peers marshal (some publish) (cohort_key os) x w).1
  unfolding on_peers
  on_peers-Published os (err e) w q h = absurd (ground arith)
  on_peers-Published os (ok ps) w q h =
      on_marshal-Published os ps (marshal (record { cohort = cohort_key os; peers = ps })) w refl
        (peers_from-Ranked 0 os ps q) h

  -- Assemble succeeds only by one call of the publisher that succeeds, on a manifest of all the members,
  -- each as often as it was given: in the order of their IDs, each with the next rank from 0 and its own
  -- address, which is not empty.
  pub assemble-Published :
      (ms : List Observation) (w : W)
      → (assemble marshal (some publish) ms w).0 ≡ none
      → (ordered : List Observation) × Perm ordered ms
        × IsOrdered ordered
        × Published ordered w (assemble marshal (some publish) ms w).1
  unfolding assemble
  assemble-Published [] w h = absurd (ground arith)
  assemble-Published (m ∷ ms) w h = (
    sort_by_id (m ∷ ms),
    sort_by_id-Perm (m ∷ ms),
    sort_by_id-IsOrdered (m ∷ ms),
    on_peers-Published (sort_by_id (m ∷ ms)) (peers_from 0 (sort_by_id (m ∷ ms))) w refl h,
  )
