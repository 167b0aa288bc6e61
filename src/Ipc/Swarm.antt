-- ===== src/Ipc/Swarm.antt =====
-- swarm_process.py: a simulated swarm in a subprocess.
pub mod Ids
pub mod Random
pub mod Removal
pub mod Launch
pub mod Lifecycle
use package.text.Mathlib.Text.{starts_with}
use fcpp_bridge.Prelude.{
  ℕ, zero, suc, ◌+◌, ◌-◌, String, Bool, true, false, not, Option, none, some, List, [], ◌∷◌, ◌++◌,
  map, string_key, nat_key, ◌==◌, ltb, if◌then◌else◌, length,
}
use fcpp_bridge.Prelude.Dict.{remove}
use fcpp_bridge.Prelude.IdSet.{contains, add, discard}
use fcpp_bridge.Ipc.Exec.{
  Exc, Result, ok, err, Exec, runtime_error, value_error, file_not_found, timeout_expired, pure,
  raise, gets, modify, continue, ◌>>=◌, ◌>>◌, try◌except◌,
}
use fcpp_bridge.Ipc.Wire.{
  SwarmSnapshot, NodeEntry, literal, Command, step, add_nodes, add_node, remove_node, Reply,
}
use fcpp_bridge.Ipc.Outside.{Outside, call}
use fcpp_bridge.Ipc.Backend
use fcpp_bridge.Ipc.Backend.{Backend, new_unix, new_http, new_grpc, send_command}
use fcpp_bridge.Ipc.Liveness.{Strategy}
use fcpp_bridge.Ipc.Node
use fcpp_bridge.Ipc.Node.{IpcNode, new_node, on_backend}

pub record SwarmProcess : Type 0 where
  pub node : IpcNode
  pub binary_path : String
  pub num_nodes : ℕ
  pub ipc_backend_name : String
  pub ipc_port : ℕ
  pub process : Option ℕ
  pub known_node_ids : List ℕ
  pub next_sequential_id : ℕ
  pub latest_snapshot : Option SwarmSnapshot

-- ipc_port or 50051; port 0 counts as absent
abbrev pub port_or_default : Option ℕ → ℕ
port_or_default (some (suc p)) = suc p
port_or_default _ = 50051

-- __init__
unfoldable pub new_swarm : String → ℕ → String → Option ℕ → String → Option Strategy → SwarmProcess
new_swarm path num_nodes backend port mode strategy = record {
  node = new_node mode strategy;
  binary_path = path;
  num_nodes = num_nodes;
  ipc_backend_name = backend;
  ipc_port = port_or_default port;
  process = none;
  known_node_ids = [];
  next_sequential_id = 0;
  latest_snapshot = none;
}

-- range(start, start + count)
unfoldable pub range_from : ℕ → ℕ → List ℕ
range_from start zero = []
range_from start (suc n) = start ∷ range_from (start + 1) n

-- {"id": nid}
abbrev pub entry : ℕ → NodeEntry
entry i = record {
  id = i;
  position = none;
  area = none;
  comm_range = none;
  max_speed = none;
  propulsion = none;
}

-- nodes[i]["position"] = pos, for the positions that there are
unfoldable pub place : List ℕ → List (List ℕ) → List NodeEntry
place [] ps = []
place (i ∷ is) [] = entry i ∷ place is []
place (i ∷ is) (p ∷ ps) = record (entry i) { position = some p } ∷ place is ps

-- the loop of `add_nodes_sequential`, for a count that is not negative: the ids, the set of ids and
-- the counter after it
unfoldable pub take_ids : ℕ → List ℕ → ℕ → List ℕ × List ℕ × ℕ
take_ids zero known next = ([], known, next)
take_ids (suc count) known next =
    let (ids, known', next') = take_ids count (add next known) (next + 1) in
    (next ∷ ids, known', next')

-- the keyword arguments of `add_nodes_random` and `add_node_explicit`
pub record NodeOptions : Type 0 where
  pub area : Option (List ℕ)
  pub comm_range : Option ℕ
  pub max_speed : Option ℕ
  pub propulsion : Option ℕ

abbrev pub with_options : NodeOptions → ℕ → NodeEntry
with_options opts i = record (entry i) {
  area = opts.area;
  comm_range = opts.comm_range;
  max_speed = opts.max_speed;
  propulsion = opts.propulsion;
}

abbrev pub explicit_entry : NodeOptions → ℕ → List ℕ → NodeEntry
explicit_entry opts i position = record (entry i) {
  position = some position;
  comm_range = opts.comm_range;
  max_speed = opts.max_speed;
  propulsion = opts.propulsion;
}

abbrev number_nodes : SwarmProcess → SwarmProcess
number_nodes s = record s {
  known_node_ids = range_from 0 s.num_nodes;
  next_sequential_id = s.num_nodes;
}

abbrev pub and_id : ℕ → Option (List ℕ) → Option (List ℕ)
and_id i none = none
and_id i (some ids) = some (i ∷ ids)

module _ {W : Type 0} ⦃o : Outside W⦄ where
  -- a method of the base class
  abbrev pub on_node : {A : Type 0} → Exec (IpcNode × W) A → Exec (SwarmProcess × W) A
  on_node m (s, w) = let (r, (n, w')) = m (s.node, w) in (r, (record s { node = n }, w'))

  abbrev update : (SwarmProcess → SwarmProcess) → Exec (SwarmProcess × W) (Unit {0})
  update f (s, w) = (ok tt, (f s, w))

  -- self.backend, or RuntimeError("Not connected")
  abbrev pub connected : Exec (SwarmProcess × W) Backend
  connected (s, w) = elim s.node.backend [
    | none ↦ (err runtime_error, (s, w))
    | some b ↦ (ok b, (s, w))
  ]

  -- the branches of `_create_backend`
  unfoldable pub choose_backend : String → ℕ → Exec W Backend
  choose_backend name port =
      if name == "unix"
      then new_unix "/tmp/fcpp_swarm.sock"
      else if starts_with name "http://"
      then new_http (literal name)
      else if name == "grpc"
      then new_grpc port
      else raise value_error

  unfoldable pub create_backend : Exec (SwarmProcess × W) (Unit {0})
  create_backend (s, w) =
      (do
        b ← call (choose_backend s.ipc_backend_name s.ipc_port)
        update (λ t. record t { node = record t.node { backend = some b } }))
        (s, w)

  abbrev launch : Exec (SwarmProcess × W) (Unit {0})
  launch (s, w) =
      (do
        p ← try call (o.popen s.binary_path s.num_nodes) except λ e. raise runtime_error
        update (λ t. record t { process = some p }))
        (s, w)

  abbrev subscribe : Exec (SwarmProcess × W) (Unit {0})
  subscribe = do b ← connected; on_node (on_backend b Backend.subscribe)

  -- The pause of half a second between the launch and the connection is left out.
  unfoldable pub start : Exec (SwarmProcess × W) (Unit {0})
  unfolding create_backend
  start (s, w) =
      if o.path_exists s.binary_path w
      then (do launch; create_backend; update number_nodes; subscribe) (s, w)
      else (err file_not_found, (s, w))

  abbrev kill_if_expired : ℕ → Exc → Exec (SwarmProcess × W) (Unit {0})
  kill_if_expired p timeout_expired = call (o.kill p)
  kill_if_expired p e = raise e

  stop_process : Exec (SwarmProcess × W) (Unit {0})
  stop_process (s, w) = elim s.process [
    | none ↦ (ok tt, (s, w))
    | some p ↦
        (do
          call (o.terminate p)
          try call (o.wait p) except kill_if_expired p
          update (λ t. record t { process = none }))
          (s, w)
  ]

  unfoldable pub close : Exec (SwarmProcess × W) (Unit {0})
  unfolding stop_process
  close = do on_node Node.close; stop_process

  unfoldable pub dispatch_update : SwarmSnapshot → Exec (SwarmProcess × W) (Unit {0})
  dispatch_update snapshot = do
    update (λ s. record s { latest_snapshot = some snapshot })
    on_node (Node.dispatch_update snapshot)

  -- self.backend.send_command(cmd), the reply dropped
  abbrev pub send : Backend → Command → Exec (SwarmProcess × W) (Unit {0})
  send b cmd = do call (send_command b cmd); pure tt

  unfoldable pub step_round : Exec (SwarmProcess × W) (Unit {0})
  step_round = do b ← connected; send b step

  -- The loop of `add_nodes_random`, for at most `rounds` draws: the new ids, or `none` when the loop
  -- goes on after them, and the set of ids.
  unfoldable pub draw_ids : ℕ → ℕ → List ℕ → W → Option (List ℕ) × (List ℕ × W)
  draw_ids rounds zero known w = (some [], (known, w))
  draw_ids zero (suc count) known w = (none, (known, w))
  draw_ids (suc rounds) (suc count) known w =
      let (nid, w') = o.randint w in
      let again = draw_ids rounds (suc count) known w' in
      let more = draw_ids rounds count (add nid known) w' in
      if contains known nid then again else (and_id nid more.0, more.1)

  abbrev draw : ℕ → ℕ → Exec (SwarmProcess × W) (Option (List ℕ))
  draw rounds count (s, w) =
      let (ids, (known, w')) = draw_ids rounds count s.known_node_ids w in
      (ok ids, (record s { known_node_ids = known }, w'))

  abbrev announce :
      Backend → ℕ → NodeOptions → Option (List ℕ) → Exec (SwarmProcess × W) (Option (List ℕ))
  announce b count opts none = pure none
  announce b count opts (some ids) = do
    send b (add_nodes (map (with_options opts) ids))
    update (λ s. record s { num_nodes = s.num_nodes + count })
    pure (some ids)

  -- `none` when the loop has not ended after `rounds` draws.
  unfoldable pub add_nodes_random : ℕ → ℕ → NodeOptions → Exec (SwarmProcess × W) (Option (List ℕ))
  add_nodes_random rounds count opts = do
    b ← connected
    drawn ← draw rounds count
    announce b count opts drawn

  unfoldable pub add_node_explicit : ℕ → List ℕ → NodeOptions → Exec (SwarmProcess × W) (Unit {0})
  add_node_explicit i position opts (s, w) =
      (do
        b ← connected
        if contains s.known_node_ids i then raise value_error else do
          update (λ t. record t { known_node_ids = add i t.known_node_ids })
          send b (add_node (explicit_entry opts i position))
          update (λ t. record t { num_nodes = t.num_nodes + 1 }))
        (s, w)

  abbrev take_sequential : ℕ → Exec (SwarmProcess × W) (List ℕ)
  take_sequential count (s, w) =
      let (ids, known, next) = take_ids count s.known_node_ids s.next_sequential_id in
      (ok ids, (record s { known_node_ids = known; next_sequential_id = next }, w))

  -- `start_positions` absent or empty is the empty list
  unfoldable pub add_nodes_sequential : ℕ → List (List ℕ) → Exec (SwarmProcess × W) (List ℕ)
  unfolding take_ids place
  add_nodes_sequential count positions = do
    b ← connected
    ids ← take_sequential count
    send b (add_nodes (place ids positions))
    update (λ s. record s { num_nodes = s.num_nodes + count })
    pure ids

  unfoldable pub add_nodes_count : ℕ → Exec (SwarmProcess × W) (Unit {0})
  add_nodes_count count = do connected; add_nodes_sequential count []; pure tt

  unfoldable pub remove_node_id : ℕ → Exec (SwarmProcess × W) (Unit {0})
  remove_node_id i (s, w) =
      (do
        b ← connected
        if not (contains s.known_node_ids i) then raise value_error else do
          update (λ t. record t { known_node_ids = discard i t.known_node_ids })
          on_node (Node.discard_from_liveness i)
          update (λ t. record t {
            node = record t.node { node_listeners = remove i t.node.node_listeners };
          })
          send b (remove_node i)
          update (λ t. record t { num_nodes = t.num_nodes - 1 }))
        (s, w)
