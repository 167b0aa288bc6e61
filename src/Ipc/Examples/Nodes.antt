-- ===== src/Ipc/Examples/Nodes.antt =====
-- The shared base class, the strategies and the listeners in the world of the examples.
use fcpp_bridge.Prelude.{
  List, String, string_key, ℕ, Bool, ◌<◌, ◌≡◌, refl, ◌⊎◌, true, false, none, some, [], ◌∷◌, arith,
  nat_key,
}
use fcpp_bridge.Prelude.Dict.{Dict, keys, lookup, has, insert, values}
use fcpp_bridge.Prelude.IdSet.{contains}
use fcpp_bridge.Ipc.Exec.{ok}
use fcpp_bridge.Ipc.Wire.{Json, text, raw, ping, number_or_zero}
use fcpp_bridge.Ipc.Backend.{Backend, unix, UnixSocketBackend, send_command}
use fcpp_bridge.Ipc.Listeners.{sequential, ListenerProxy, add_listener, remove_listener, dispatch}
use fcpp_bridge.Ipc.Listeners.Ids.{
  IsFresh, drop, apply, run, add_listener-never_reuses, remove-add_listener,
}
use fcpp_bridge.Ipc.Liveness.{
  Strategy, passive, active, PassiveHeartbeat, on_snapshot, check, tracked, ping_one,
}
use fcpp_bridge.Ipc.Liveness.Window.{verdicts, check-on_snapshot}
use fcpp_bridge.Ipc.Liveness.Tracking.{check_total}
use fcpp_bridge.Ipc.Liveness.Ping.{IsPong, ping_one-alive_iff}
use fcpp_bridge.Ipc.Node.{IpcNode, dispatch_update, close}
use fcpp_bridge.Ipc.Node.Routing.{repeat, dispatch_update-repeats_global}
use fcpp_bridge.Ipc.Node.Closing.{IsClosed, close-IsClosed}
use fcpp_bridge.Ipc.Examples.{tick, snapshot, world}

abbrev socket : Backend
socket = unix (record { socket_path = "/tmp/s"; sock = some 7 })

-- node 4 was seen at time 1, node 6 at time 2
abbrev seen : PassiveHeartbeat
seen = record { timeout = 30; timestamps = (4, 1) ∷ (6, 2) ∷ [] }

abbrev pinger : Strategy
pinger = active (record { ping_timeout = 2; known_ids = 4 ∷ 5 ∷ [] })

-- one listener, 40
abbrev proxy : ListenerProxy
proxy = record { mode = sequential; listeners = (0, 40) ∷ []; next_id = 1; executor = false }

-- connected, with a monitor that runs and a global listener
abbrev running : IpcNode
running = record {
  backend = some socket;
  listener_mode = "sequential";
  strategy = passive seen;
  heartbeat_thread = some 3;
  heartbeat_stop_event = some 2;
  global_listener = some proxy;
  node_listeners = [];
}

-- with listeners of their own for the nodes 4 and 5
abbrev owning : IpcNode
owning = record running { node_listeners = (4, proxy) ∷ (5, proxy) ∷ [] }

proxy-IsFresh : IsFresh proxy
unfolding has
proxy-IsFresh = record { dict = (refl, tt); below = λ i h. ground arith }

check-on_snapshot_example :
    lookup 4 (verdicts (check none none none (on_snapshot 10 snapshot (passive seen)) (tick 45)))
    ≡ some false
unfolding contains
check-on_snapshot_example = check-on_snapshot 10 4 snapshot none none none seen 45

check_total_example :
    (d : Dict ℕ Bool) × ((check none none (some socket) pinger (tick 20)).0 ≡ ok d)
    × (keys d ≡ tracked pinger)
check_total_example = check_total none none (some socket) pinger 20

ping_one-alive_iff_example :
    (IsPong (send_command socket (ping 4 2) (tick 0)).0
      × ((ping_one socket 2 4 (tick 0)).0 ≡ ok true))
    ⊎ ((¬ IsPong (send_command socket (ping 4 2) (tick 0)).0)
        × ((ping_one socket 2 4 (tick 0)).0 ≡ ok false))
ping_one-alive_iff_example = ping_one-alive_iff socket 2 4 0

add_listener-never_reuses_example :
    (1 < 2) × (has 2 (run (drop 1 ∷ []) (add_listener 50 proxy).1).listeners ≡ false)
unfolding add_listener run apply remove_listener has insert
add_listener-never_reuses_example =
    add_listener-never_reuses 50 60 (drop 1 ∷ []) proxy 1 2 proxy-IsFresh refl refl

remove-add_listener_example :
    (values (add_listener 50 proxy).1.listeners ≡ 40 ∷ 50 ∷ [])
    × (lookup 1 (add_listener 50 proxy).1.listeners ≡ some 50)
    × ((remove_listener 1 (add_listener 50 proxy).1).0 ≡ ok tt)
    × ((remove_listener 1 (add_listener 50 proxy).1).1.listeners ≡ proxy.listeners)
unfolding add_listener
remove-add_listener_example = remove-add_listener 50 proxy 1 proxy-IsFresh refl

dispatch_update-repeats_global_example :
    let d = dispatch_update snapshot (running, tick 0) in
    let calls = repeat 2 (dispatch proxy snapshot) (tick 0) in (d.0 ≡ calls.0) × (d.1.1 ≡ calls.1)
dispatch_update-repeats_global_example =
    dispatch_update-repeats_global running proxy snapshot 0 refl refl

close-IsClosed_example : IsClosed (close (running, tick 0)).1.0
unfolding close fcpp_bridge.Ipc.Backend.close
close-IsClosed_example = close-IsClosed running (tick 0) tt refl

-- two nodes, one with a state, in round 3
abbrev entries : List (Dict String Json)
entries = (("id", raw "4") ∷ ("state", text "on") ∷ []) ∷ (("id", raw "5") ∷ []) ∷ []

abbrev fields : Dict String Json
fields = ("round", raw "3") ∷ []

abbrev number_at : String → Dict String Json → ℕ
number_at key d = number_or_zero world.number_of (lookup key d)
