-- ===== src/Ipc/Physical/Neighbours.antt =====
-- How physical_node.py notices neighbours that join and leave.
use fcpp_bridge.Prelude.{
  ℕ, ◌<◌, ◌≡◌, refl, true, false, Option, List, [], ◌∷◌, arith, nat_eqb, nat_eqb_iff, if◌then◌else◌,
  ◌||◌, All,
}
use fcpp_bridge.Prelude.IdSet.{contains, add, discard, IsIdSet, contains-add, contains-discard}
use fcpp_bridge.Ipc.Exec.{ok, for_each}
use fcpp_bridge.Ipc.Wire.{NodeState}
use fcpp_bridge.Ipc.Outside.{Outside, call}
use fcpp_bridge.Ipc.Liveness.{ids_of}
use fcpp_bridge.Ipc.Physical.{PhysicalNode, node_count, first_seen, notice_all, combined_on_dead}

node_count_pos : (p : PhysicalNode) → 0 < node_count p
unfolding node_count
node_count_pos p = ground arith

contains-All :
    (nodes : List NodeState) (q : PhysicalNode)
    → ((i : ℕ) → contains (ids_of nodes) i ≡ true → contains q.seen_node_ids i ≡ true)
    → All (λ s. contains q.seen_node_ids s.node_id ≡ true) nodes
unfolding contains
contains-All [] q h = tt
contains-All (s ∷ nodes) q h = (
  h s.node_id (ground (arith, nat_eqb_iff s.node_id s.node_id)),
  contains-All nodes q (λ i e. h i (ground (arith, e))),
)

module _ {W : Type 0} ⦃o : Outside W⦄ where
  -- The callbacks change only the world.
  signals_keep :
      (cbs : List ℕ) (nid : ℕ) (p : PhysicalNode) (w : W)
      → (for_each cbs (λ cb. call (o.signal cb nid)) (p, w)).1.0 ≡ p
  unfolding for_each
  signals_keep [] nid p w = refl
  signals_keep (cb ∷ cbs) nid p w = ground (arith, signals_keep cbs nid p (o.signal cb nid w).1)

  first_seen_adds :
      (nid : ℕ) (p : PhysicalNode) (w : W)
      → let q = (first_seen nid (p, w)).1.0 in
        (q.join_callbacks ≡ p.join_callbacks)
        × (q.seen_node_ids
            ≡ (if contains p.seen_node_ids nid then p.seen_node_ids else add nid p.seen_node_ids))
  first_seen_adds nid p w = ground (
    arith,
    signals_keep p.join_callbacks nid (record p { seen_node_ids = add nid p.seen_node_ids }) w,
  )

  -- After the nodes of a snapshot were noticed without an error, the seen ids are the old ones and
  -- those of the snapshot.
  notice_all_adds :
      (nodes : List NodeState) (i : ℕ) (p : PhysicalNode) (w : W)
      → (notice_all nodes (p, w)).0 ≡ ok tt
      → contains (notice_all nodes (p, w)).1.0.seen_node_ids i
        ≡ (contains (ids_of nodes) i || contains p.seen_node_ids i)
  unfolding notice_all contains
  notice_all_adds [] i p w e = refl
  notice_all_adds (s ∷ nodes) i p w e =
      let (q, v) = (first_seen s.node_id (p, w)).1 in
      ground (
        arith,
        first_seen_adds s.node_id p w,
        notice_all_adds nodes i q v,
        contains-add s.node_id i p.seen_node_ids,
      )

  -- Nodes that were all seen before signal nobody and change nothing.
  notice_all_seen :
      (nodes : List NodeState) (p : PhysicalNode) (w : W)
      → All (λ s. contains p.seen_node_ids s.node_id ≡ true) nodes
      → notice_all nodes (p, w) ≡ (ok tt, (p, w))
  unfolding notice_all
  notice_all_seen [] p w h = refl
  notice_all_seen (s ∷ nodes) p w (h, hs) = rw h (notice_all_seen nodes p w hs)

  -- When the nodes of a snapshot were noticed without an error, noticing the same nodes again does
  -- nothing: no callback runs and the seen ids stay.
  pub notice_all_again :
      (nodes : List NodeState) (p : PhysicalNode) (w : W)
      → (notice_all nodes (p, w)).0 ≡ ok tt
      → let after = (notice_all nodes (p, w)).1 in notice_all nodes after ≡ (ok tt, after)
  notice_all_again nodes p w e =
      let (q, v) = (notice_all nodes (p, w)).1 in
      notice_all_seen nodes q v
        (contains-All nodes q (λ i h. ground (arith, notice_all_adds nodes i p w e)))

  -- Whatever the callbacks do, the report of a dead node takes just that id out of the seen ids.
  pub combined_on_dead_forgets :
      (on_dead : Option ℕ) (nid j : ℕ) (p : PhysicalNode) (w : W)
      → IsIdSet p.seen_node_ids
      → let q = (combined_on_dead on_dead nid (p, w)).1.0 in
        (contains q.seen_node_ids j ≡ (if nat_eqb nid j then false else contains p.seen_node_ids j))
        × (q.join_callbacks ≡ p.join_callbacks)
        × (q.leave_callbacks ≡ p.leave_callbacks)
  unfolding combined_on_dead
  combined_on_dead_forgets on_dead nid j p w h =
      let kept =
        signals_keep p.leave_callbacks nid
          (record p { seen_node_ids = discard nid p.seen_node_ids }) w in
      let gone = contains-discard nid j p.seen_node_ids h in
      (ground (arith, kept, gone), ground (arith, kept), ground (arith, kept))

  -- A node that is reported dead and seen again is a new neighbour: its id is added again and every
  -- callback for joining nodes is called.
  pub combined_on_dead-first_seen :
      (on_dead : Option ℕ) (s : NodeState) (p : PhysicalNode) (w : W)
      → IsIdSet p.seen_node_ids
      → let (q, v) = (combined_on_dead on_dead s.node_id (p, w)).1 in
        notice_all (s ∷ []) (q, v)
        ≡ for_each p.join_callbacks
            (λ cb. call (o.signal cb s.node_id))
            (record q { seen_node_ids = add s.node_id q.seen_node_ids }, v)
  unfolding notice_all
  combined_on_dead-first_seen on_dead s p w h =
      let f = combined_on_dead_forgets on_dead s.node_id s.node_id p w h in
      ground (arith, f, nat_eqb_iff s.node_id s.node_id)
