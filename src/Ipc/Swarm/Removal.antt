-- ===== src/Ipc/Swarm/Removal.antt =====
-- `remove_node` of swarm_process.py.
use fcpp_bridge.Prelude.{ℕ, ◌+◌, ◌≡◌, true, false, none, arith, nat_key, nat_eqb, if◌then◌else◌}
use fcpp_bridge.Prelude.Dict.{lookup, IsDict, lookup-remove, remove-IsDict}
use fcpp_bridge.Prelude.IdSet.{contains, contains-discard, discard-IsIdSet, length-discard}
use fcpp_bridge.Ipc.Exec.{ok}
use fcpp_bridge.Ipc.Outside.{Outside}
use fcpp_bridge.Ipc.Liveness.{tracked}
use fcpp_bridge.Ipc.Liveness.Tracking.{IsTracking, tracked-forget, forget-IsTracking}
use fcpp_bridge.Ipc.Node
use fcpp_bridge.Ipc.Node.{IpcNode}
use fcpp_bridge.Ipc.Swarm.{SwarmProcess, remove_node_id}
use fcpp_bridge.Ipc.Swarm.Ids.{IsCounted}

-- The parts of a swarm that are dicts and sets in Python.
pub record IsWellFormed (s : SwarmProcess) : Type 0 where
  pub counts : IsCounted s
  pub tracking : IsTracking s.node.strategy
  pub listening : IsDict s.node.node_listeners

module _ {W : Type 0} ⦃o : Outside W⦄ where
  -- A successful `remove_node` was of a known node; after it the node is neither known nor tracked for
  -- liveness and has no listener, one node fewer is counted, and every other node is as before.
  pub remove_node_id_effect :
      (s : SwarmProcess) (i j : ℕ) (w : W)
      → IsWellFormed s
      → (remove_node_id i (s, w)).0 ≡ ok tt
      → let t = (remove_node_id i (s, w)).1.0 in
        (contains s.known_node_ids i ≡ true)
        × (contains t.known_node_ids j
            ≡ (if nat_eqb i j then false else contains s.known_node_ids j))
        × (contains (tracked t.node.strategy) j
            ≡ (if nat_eqb i j then false else contains (tracked s.node.strategy) j))
        × (lookup j t.node.node_listeners
            ≡ (if nat_eqb i j then none else lookup j s.node.node_listeners))
        × (t.num_nodes + 1 ≡ s.num_nodes)
        × IsWellFormed t
  unfolding remove_node_id Node.discard_from_liveness
  remove_node_id_effect s i j w h e = (
    ground arith,
    ground (arith, contains-discard i j s.known_node_ids h.counts.id_set),
    ground (arith, tracked-forget i j s.node.strategy h.tracking),
    ground (arith, lookup-remove i j s.node.node_listeners h.listening),
    ground (arith, length-discard i s.known_node_ids, h.counts.counted),
    record {
      counts = record {
        id_set = ground (arith, discard-IsIdSet i s.known_node_ids h.counts.id_set);
        counted = ground (arith, length-discard i s.known_node_ids, h.counts.counted);
      };
      tracking = ground (arith, forget-IsTracking i s.node.strategy h.tracking);
      listening = ground (arith, remove-IsDict i s.node.node_listeners h.listening);
    },
  )
