-- ===== src/Ipc/Examples/Physicals.antt =====
-- A physical device in the world of the examples.
use fcpp_bridge.Prelude.{◌≡◌, refl, true, false, none, some, [], ◌∷◌}
use fcpp_bridge.Ipc.Exec.{ok, runtime_error}
use fcpp_bridge.Ipc.Wire.{literal}
use fcpp_bridge.Ipc.Backend.{Backend, http, fetch_state}
use fcpp_bridge.Ipc.Liveness.{passive}
use fcpp_bridge.Ipc.Node
use fcpp_bridge.Ipc.Node.{IpcNode}
use fcpp_bridge.Ipc.Node.Closing.{IsClosed}
use fcpp_bridge.Ipc.Physical.{PhysicalNode, connect, get_state, close, reconnect_cycle}
use fcpp_bridge.Ipc.Physical.Connection.{
  Outcome, connect-Outcome, reconnect_cycle-idle, close_outcome,
}
use fcpp_bridge.Ipc.Examples.{tick, world}

abbrev web : Backend
web = http (record { base_url = literal "http://h" })

-- not connected, with the neighbour 4 seen and a thread that reconnects
abbrev device : PhysicalNode
device = record {
  node = record {
    backend = none;
    listener_mode = "sequential";
    strategy = passive (record { timeout = 30; timestamps = [] });
    heartbeat_thread = none;
    heartbeat_stop_event = none;
    global_listener = none;
    node_listeners = [];
  };
  host = "h";
  port = 8080;
  backend_type = "http";
  reconnect_interval = 5;
  connected = false;
  reconnect_thread = some 2;
  reconnect_stop_event = some 1;
  join_callbacks = 70 ∷ [];
  leave_callbacks = 71 ∷ [];
  seen_node_ids = 4 ∷ [];
}

abbrev linked : PhysicalNode
linked = record device { connected = true; node = record device.node { backend = some web } }

connect-Outcome_example : Outcome (connect (device, tick 0)).0 (connect (device, tick 0)).1.0
connect-Outcome_example = connect-Outcome device (tick 0) refl

reconnect_cycle-idle_example :
    let after = (get_state (linked, tick 0)).1 in
    (after.0.connected ≡ true) × (reconnect_cycle after ≡ (ok tt, after))
unfolding get_state Node.get_state fetch_state
reconnect_cycle-idle_example =
    reconnect_cycle-idle linked (tick 0) web {e = runtime_error} refl refl tt refl

close_outcome_example :
    let q = (close (linked, tick 0)).1.0 in
    (q.connected ≡ false)
    × (q.reconnect_thread ≡ none)
    × (q.reconnect_stop_event ≡ none)
    × IsClosed q.node
unfolding close Node.close fcpp_bridge.Ipc.Backend.close
close_outcome_example = close_outcome linked (tick 0) tt tt refl
