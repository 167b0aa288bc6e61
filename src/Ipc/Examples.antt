-- ===== src/Ipc/Examples.antt =====
-- A world to run the package in: a clock that every call moves on, a Unix socket that answers, an
-- HTTP server that does not, and a callback for registrations that raises.
pub mod Nodes
pub mod Swarms
pub mod Physicals
pub mod Managers
use fcpp_bridge.Prelude.{ℕ, ◌+◌, String, Bool, true, false, Option, none, some, List, [], ◌∷◌, ltb}
use fcpp_bridge.Ipc.Exec.{Result, ok, err, connection_error, timeout_expired, other}
use fcpp_bridge.Ipc.Wire.{NodeState, SwarmSnapshot, Json, text, raw, Reply, object}
use fcpp_bridge.Ipc.Outside.{Outside}

-- a point in time
abbrev pub tick : ℕ → ℕ
tick w = w

abbrev pub state : ℕ → NodeState
state i = record { node_id = i; state_data = none; timestamp = 0 }

-- a snapshot with the nodes 4 and 5
abbrev pub snapshot : SwarmSnapshot
snapshot = record { round_number = 1; time = 0; nodes = state 4 ∷ state 5 ∷ [] }

abbrev pub pong : Reply
pong = object (("status", text "pong") ∷ [])

-- the registration of "drone" at host "h", port 8080
abbrev pub registration : List (String × Json)
registration =
    ("name", text "drone")
    ∷ ("host", text "h")
    ∷ ("port", raw "8080")
    ∷ ("backend", text "http")
    ∷ []

-- The state is the number of calls so far. An event is set once there were 100.
instance abbrev pub world : Outside ℕ
world = record {
  clock = λ w. w;
  new_event = λ w. (w, w + 1);
  set_event = λ e w. w + 1;
  is_set = λ e w. ltb 99 w;
  wait_event = λ e s w. w + s;
  start_thread = λ w. (w, w + 1);
  is_alive = λ t w. true;
  join = λ t w. w + 1;
  notify = λ fn s w. (ok tt, w + 1);
  signal = λ cb i w. (ok tt, w + 1);
  submit = λ fn s w. (ok tt, w + 1);
  sock_connect = λ path w. (ok w, w + 1);
  sock_exchange = λ sock cmd w. (ok pong, w + 1);
  number_of = λ v. 4;
  sock_close = λ sock w. (ok tt, w + 1);
  http_post = λ url cmd w. (err connection_error, w + 1);
  http_get = λ url w. (err connection_error, w + 1);
  grpc_channel = λ host port w. (ok w, w + 1);
  grpc_stub = λ channel w. (ok w, w + 1);
  grpc_command = λ stub cmd w. (ok pong, w + 1);
  grpc_state = λ stub w. (ok snapshot, w + 1);
  grpc_close = λ channel w. (ok tt, w + 1);
  path_exists = λ path w. true;
  popen = λ path n w. (ok w, w + 1);
  terminate = λ p w. (ok tt, w + 1);
  wait = λ p w. (err timeout_expired, w + 1);
  kill = λ p w. (ok tt, w + 1);
  randint = λ w. (w, w + 1);
  http_server = λ port w. (ok tt, w + 1);
  next_request = λ w. (some ("/register", "{}"), w + 1);
  server_close = λ w. (ok tt, w + 1);
  json_loads = λ body. ok (object registration);
  to_int = λ v. ok 8080;
  registered = λ cb name w. (err (other 1), w + 1);
  emit = λ event name e w. (ok tt, w + 1);
}
