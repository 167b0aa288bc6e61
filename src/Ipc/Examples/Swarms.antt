-- ===== src/Ipc/Examples/Swarms.antt =====
-- A simulated swarm in the world of the examples.
use fcpp_bridge.Prelude.{
  ℕ, ◌+◌, ◌≡◌, refl, true, false, none, some, [], ◌∷◌, arith, nat_eqb, nat_key, if◌then◌else◌,
}
use fcpp_bridge.Prelude.Dict.{lookup, has}
use fcpp_bridge.Prelude.IdSet.{contains, add}
use fcpp_bridge.Ipc.Exec.{err, runtime_error, value_error}
use fcpp_bridge.Ipc.Wire.{literal}
use fcpp_bridge.Ipc.Backend.{Backend, unix, http, send_command}
use fcpp_bridge.Ipc.Liveness.{passive, tracked}
use fcpp_bridge.Ipc.Node.{IpcNode}
use fcpp_bridge.Ipc.Swarm.{
  SwarmProcess, NodeOptions, range_from, draw_ids, start, create_backend, add_node_explicit,
  add_nodes_sequential, remove_node_id, take_ids,
}
use fcpp_bridge.Ipc.Swarm.Ids.{
  IsCounted, IsSequential, add_nodes_sequential-fresh, add_nodes_sequential-collides,
  add_node_explicit_retry,
}
use fcpp_bridge.Ipc.Swarm.Random.{first_seen, draws, draw_ids_enough}
use fcpp_bridge.Ipc.Swarm.Removal.{IsWellFormed, remove_node_id_effect}
use fcpp_bridge.Ipc.Swarm.Lifecycle.{
  IsBounded, Reachable, by_start, by_step, by_explicit, by_sequential, Reachable-IsBounded,
}
use fcpp_bridge.Ipc.Examples.{tick, world}

abbrev socket : Backend
socket = unix (record { socket_path = "/tmp/s"; sock = some 7 })

abbrev no_options : NodeOptions
no_options = record { area = none; comm_range = none; max_speed = none; propulsion = none }

-- connected, with the nodes 0 and 1
abbrev swarm : SwarmProcess
swarm = record {
  node = record {
    backend = some socket;
    listener_mode = "sequential";
    strategy = passive (record { timeout = 30; timestamps = (0, 5) ∷ (1, 5) ∷ [] });
    heartbeat_thread = none;
    heartbeat_stop_event = none;
    global_listener = none;
    node_listeners = [];
  };
  binary_path = "swarm";
  num_nodes = 2;
  ipc_backend_name = "unix";
  ipc_port = 50051;
  process = some 1;
  known_node_ids = 0 ∷ 1 ∷ [];
  next_sequential_id = 2;
  latest_snapshot = none;
}

-- the same swarm over HTTP, where no command gets through
abbrev cut_off : SwarmProcess
cut_off = record swarm {
  node = record swarm.node { backend = some (http (record { base_url = literal "http://h" })) };
}

abbrev misnamed : SwarmProcess
misnamed = record swarm { ipc_backend_name = "tcp" }

swarm-IsCounted : IsCounted swarm
unfolding contains
swarm-IsCounted = record { id_set = (refl, (refl, tt)); counted = refl }

swarm-IsSequential : IsSequential swarm
unfolding contains
swarm-IsSequential = record { below = λ i h. ground arith }

swarm-IsWellFormed : IsWellFormed swarm
unfolding has
swarm-IsWellFormed = record {
  counts = swarm-IsCounted;
  tracking = (refl, (refl, tt));
  listening = tt;
}

add_nodes_sequential-fresh_example :
    (2 ∷ 3 ∷ [] ≡ range_from 2 2)
    × (contains (0 ∷ 1 ∷ []) 3 ≡ false)
    × (contains (add_nodes_sequential 2 [] (swarm, tick 0)).1.0.known_node_ids 3 ≡ true)
unfolding add_nodes_sequential take_ids send_command contains
add_nodes_sequential-fresh_example =
    add_nodes_sequential-fresh swarm 2 [] (tick 0) 3 swarm-IsSequential refl refl

-- The draws are 7, 8 and so on; 8 is in use.
draw_ids_enough_example : (draw_ids 5 2 (8 ∷ 1 ∷ []) (tick 7)).0 ≡ some (7 ∷ 9 ∷ [])
unfolding draws first_seen contains
draw_ids_enough_example = draw_ids_enough 5 2 (8 ∷ 1 ∷ []) (tick 7)

remove_node_id_effect_example :
    let t = (remove_node_id 1 (swarm, tick 0)).1.0 in
    (contains swarm.known_node_ids 1 ≡ true)
    × (contains t.known_node_ids 0
        ≡ (if nat_eqb 1 0 then false else contains swarm.known_node_ids 0))
    × (contains (tracked t.node.strategy) 0
        ≡ (if nat_eqb 1 0 then false else contains (tracked swarm.node.strategy) 0))
    × (lookup 0 t.node.node_listeners
        ≡ (if nat_eqb 1 0 then none else lookup 0 swarm.node.node_listeners))
    × (t.num_nodes + 1 ≡ swarm.num_nodes)
    × IsWellFormed t
unfolding remove_node_id send_command contains fcpp_bridge.Ipc.Node.discard_from_liveness
remove_node_id_effect_example = remove_node_id_effect swarm 1 0 (tick 0) swarm-IsWellFormed refl

add_nodes_sequential-collides_example : contains (2 ∷ []) 2 ≡ true
unfolding add_node_explicit add_nodes_sequential take_ids send_command contains add
add_nodes_sequential-collides_example =
    add_nodes_sequential-collides swarm (1 ∷ 1 ∷ []) no_options 0 [] (tick 0) {ids = 2 ∷ []} refl
      refl

add_node_explicit_retry_example :
    let (r, after) = add_node_explicit 9 (1 ∷ 1 ∷ []) no_options (cut_off, tick 0) in
    (r ≡ err runtime_error)
    × (after.0.num_nodes ≡ 2)
    × ((add_node_explicit 9 (1 ∷ 1 ∷ []) no_options after).0 ≡ err value_error)
unfolding send_command contains
add_node_explicit_retry_example =
    add_node_explicit_retry cut_off 9 (1 ∷ 1 ∷ []) no_options (tick 0)
      (http (record { base_url = literal "http://h" })) refl refl refl

-- launched with the nodes 0 and 1, and then with 2 chosen by the caller
abbrev launched : SwarmProcess × ℕ
launched = (start (swarm, tick 0)).1

abbrev chosen : SwarmProcess × ℕ
chosen = (add_node_explicit 2 (1 ∷ 1 ∷ []) no_options launched).1

-- The counter then hands out 2 again: four nodes are counted, and three ids are known.
collided : Reachable (add_nodes_sequential 1 [] chosen).1
unfolding start create_backend fcpp_bridge.Ipc.Swarm.choose_backend fcpp_bridge.Ipc.Backend.new_unix
    fcpp_bridge.Ipc.Backend.subscribe add_node_explicit add_nodes_sequential take_ids send_command
    contains add range_from
collided =
    by_step chosen _
      (by_step launched _ (by_start (swarm, tick 0) refl)
        (by_explicit 2 (1 ∷ 1 ∷ []) no_options launched refl))
      (by_sequential 1 [] chosen (2 ∷ []) refl)

Reachable-IsBounded_example : IsBounded (add_nodes_sequential 1 [] chosen).1.0
Reachable-IsBounded_example = Reachable-IsBounded (add_nodes_sequential 1 [] chosen).1 collided
