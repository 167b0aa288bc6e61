-- ===== src/Ipc/Swarm/Lifecycle.antt =====
-- A swarm from its launch through any row of successful operations on its nodes.
use fcpp_bridge.Prelude.{ℕ, zero, suc, ◌+◌, ◌≤◌, ◌≡◌, some, List, arith, length}
use fcpp_bridge.Prelude.IdSet.{
  add, IsIdSet, add-IsIdSet, discard-IsIdSet, length-add, length-discard,
}
use fcpp_bridge.Ipc.Exec.{ok}
use fcpp_bridge.Ipc.Outside.{Outside}
use fcpp_bridge.Ipc.Node
use fcpp_bridge.Ipc.Swarm.{
  SwarmProcess, NodeOptions, take_ids, draw_ids, start, add_nodes_random, add_node_explicit,
  add_nodes_sequential, remove_node_id,
}
use fcpp_bridge.Ipc.Swarm.Ids.{take_ids-IsIdSet}
use fcpp_bridge.Ipc.Swarm.Random.{draw_ids-IsDrawn}
use fcpp_bridge.Ipc.Swarm.Launch.{start-IsCounted}

-- The known ids are a set, and the swarm counts at least as many nodes.
pub record IsBounded (s : SwarmProcess) : Type 0 where
  pub id_set : IsIdSet s.known_node_ids
  pub bounded : length s.known_node_ids ≤ s.num_nodes

length-take_ids_bound :
    (count next : ℕ) (known : List ℕ) → length (take_ids count known next).1 ≤ length known + count
unfolding take_ids
length-take_ids_bound zero next known = omega arith
length-take_ids_bound (suc n) next known =
    ground (arith, length-add next known, length-take_ids_bound n (next + 1) (add next known))

module _ {W : Type 0} ⦃o : Outside W⦄ where
  -- A successful operation on the nodes.
  pub data Step : SwarmProcess × W → SwarmProcess × W → Type 0 where
    by_sequential :
        (count : ℕ) (positions : List (List ℕ)) (s : SwarmProcess × W) (ids : List ℕ)
        → (add_nodes_sequential count positions s).0 ≡ ok ids
        → Step s (add_nodes_sequential count positions s).1
    by_random :
        (rounds count : ℕ) (opts : NodeOptions) (s : SwarmProcess × W) (ids : List ℕ)
        → (add_nodes_random rounds count opts s).0 ≡ ok (some ids)
        → Step s (add_nodes_random rounds count opts s).1
    by_explicit :
        (i : ℕ) (position : List ℕ) (opts : NodeOptions) (s : SwarmProcess × W)
        → (add_node_explicit i position opts s).0 ≡ ok tt
        → Step s (add_node_explicit i position opts s).1
    by_removal :
        (i : ℕ) (s : SwarmProcess × W)
        → (remove_node_id i s).0 ≡ ok tt
        → Step s (remove_node_id i s).1

  -- Any number of them after a successful launch.
  pub data Reachable : SwarmProcess × W → Type 0 where
    by_start : (s : SwarmProcess × W) → (start s).0 ≡ ok tt → Reachable (start s).1
    by_step : (s t : SwarmProcess × W) → Reachable s → Step s t → Reachable t

  sequential-IsBounded :
      (count : ℕ) (positions : List (List ℕ)) (s : SwarmProcess) (w : W) (ids : List ℕ)
      → (add_nodes_sequential count positions (s, w)).0 ≡ ok ids
      → IsBounded s
      → IsBounded (add_nodes_sequential count positions (s, w)).1.0
  unfolding add_nodes_sequential
  sequential-IsBounded count positions s w ids e h =
      let known = s.known_node_ids in
      let next = s.next_sequential_id in
      record {
        id_set = ground (arith, take_ids-IsIdSet count next known h.id_set);
        bounded = ground (arith, length-take_ids_bound count next known, h.bounded);
      }

  random-IsBounded :
      (rounds count : ℕ) (opts : NodeOptions) (s : SwarmProcess) (w : W) (ids : List ℕ)
      → (add_nodes_random rounds count opts (s, w)).0 ≡ ok (some ids)
      → IsBounded s
      → IsBounded (add_nodes_random rounds count opts (s, w)).1.0
  unfolding add_nodes_random
  random-IsBounded rounds count opts s w ids e h =
      let known = s.known_node_ids in
      let p : (draw_ids rounds count known w).0 ≡ some ids = ground arith in
      let d = draw_ids-IsDrawn rounds count known w p in
      record {
        id_set = ground (arith, d.id_set h.id_set);
        bounded = ground (arith, d.grown, h.bounded);
      }

  explicit-IsBounded :
      (i : ℕ) (position : List ℕ) (opts : NodeOptions) (s : SwarmProcess) (w : W)
      → (add_node_explicit i position opts (s, w)).0 ≡ ok tt
      → IsBounded s
      → IsBounded (add_node_explicit i position opts (s, w)).1.0
  unfolding add_node_explicit
  explicit-IsBounded i position opts s w e h = record {
    id_set = ground (arith, add-IsIdSet i s.known_node_ids h.id_set);
    bounded = ground (arith, length-add i s.known_node_ids, h.bounded);
  }

  removal-IsBounded :
      (i : ℕ) (s : SwarmProcess) (w : W)
      → (remove_node_id i (s, w)).0 ≡ ok tt
      → IsBounded s
      → IsBounded (remove_node_id i (s, w)).1.0
  unfolding remove_node_id Node.discard_from_liveness
  removal-IsBounded i s w e h = record {
    id_set = ground (arith, discard-IsIdSet i s.known_node_ids h.id_set);
    bounded = ground (arith, length-discard i s.known_node_ids, h.bounded);
  }

  Step-IsBounded : (s t : SwarmProcess × W) → Step s t → IsBounded s.0 → IsBounded t.0
  Step-IsBounded _ _ (by_sequential count positions s ids e) h =
      sequential-IsBounded count positions s.0 s.1 ids e h
  Step-IsBounded _ _ (by_random rounds count opts s ids e) h =
      random-IsBounded rounds count opts s.0 s.1 ids e h
  Step-IsBounded _ _ (by_explicit i position opts s e) h =
      explicit-IsBounded i position opts s.0 s.1 e h
  Step-IsBounded _ _ (by_removal i s e) h = removal-IsBounded i s.0 s.1 e h

  -- From a successful launch on, through any row of successful additions of all three kinds and
  -- removals, the known ids are a set and the swarm never counts fewer nodes than it knows ids.
  pub Reachable-IsBounded : (s : SwarmProcess × W) → Reachable s → IsBounded s.0
  Reachable-IsBounded _ (by_start s e) =
      let counted = (start-IsCounted s.0 0 s.1 e).1 in
      record { id_set = counted.id_set; bounded = omega (arith, counted.counted) }
  Reachable-IsBounded t (by_step s _ r step) = Step-IsBounded s t step (Reachable-IsBounded s r)
