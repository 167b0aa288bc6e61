-- ===== src/Ipc/Physical.antt =====
-- physical_node.py: the connection to a device that runs by itself.
pub mod Connection
pub mod Neighbours
use fcpp_bridge.Prelude.{
  ℕ, zero, suc, String, Bool, true, false, not, Option, none, some, List, [], ◌∷◌, ◌++◌, string_key,
  nat_key, ◌==◌, if◌then◌else◌, length,
}
use fcpp_bridge.Prelude.Dict.{Dict}
use fcpp_bridge.Prelude.IdSet.{contains, add, discard}
use fcpp_bridge.Ipc.Exec.{
  Exc, Result, ok, err, Exec, runtime_error, value_error, attribute_error, is_os_error, pure, raise,
  continue, ◌>>=◌, ◌>>◌, try◌except◌, for_each,
}
use fcpp_bridge.Ipc.Wire.{NodeState, SwarmSnapshot, host_port}
use fcpp_bridge.Ipc.Outside.{Outside, call, thread_runs, set_if_some}
use fcpp_bridge.Ipc.Backend
use fcpp_bridge.Ipc.Backend.{Backend, new_http, new_grpc}
use fcpp_bridge.Ipc.Liveness.{Strategy}
use fcpp_bridge.Ipc.Node
use fcpp_bridge.Ipc.Node.{IpcNode, new_node, on_backend, heartbeat_loop}

pub record PhysicalNode : Type 0 where
  pub node : IpcNode
  pub host : String
  pub port : ℕ
  pub backend_type : String
  pub reconnect_interval : ℕ
  pub connected : Bool
  pub reconnect_thread : Option ℕ
  pub reconnect_stop_event : Option ℕ
  pub join_callbacks : List ℕ
  pub leave_callbacks : List ℕ
  pub seen_node_ids : List ℕ

-- __init__
unfoldable pub new_physical : String → ℕ → String → ℕ → String → Option Strategy → PhysicalNode
new_physical host port backend_type interval mode strategy = record {
  node = new_node mode strategy;
  host = host;
  port = port;
  backend_type = backend_type;
  reconnect_interval = interval;
  connected = false;
  reconnect_thread = none;
  reconnect_stop_event = none;
  join_callbacks = [];
  leave_callbacks = [];
  seen_node_ids = [];
}

-- len(self._seen_node_ids) or 1
unfoldable pub node_count : PhysicalNode → ℕ
node_count p = elim (length p.seen_node_ids) [ zero ↦ 1 | suc n ↦ suc n ]

abbrev set_backend : Option Backend → PhysicalNode → PhysicalNode
set_backend b p = record p { node = record p.node { backend = b } }

-- on_neighbor_joined, on_neighbor_left
unfoldable pub on_neighbor_joined : ℕ → PhysicalNode → PhysicalNode
on_neighbor_joined cb p = record p { join_callbacks = p.join_callbacks ++ cb ∷ [] }

unfoldable pub on_neighbor_left : ℕ → PhysicalNode → PhysicalNode
on_neighbor_left cb p = record p { leave_callbacks = p.leave_callbacks ++ cb ∷ [] }

-- if interval is not None: self.reconnect_interval = interval
abbrev set_interval : Option ℕ → PhysicalNode → PhysicalNode
set_interval none q = q
set_interval (some i) q = record q { reconnect_interval = i }

module _ {W : Type 0} ⦃o : Outside W⦄ where
  -- a method of the base class
  abbrev pub on_node : {A : Type 0} → Exec (IpcNode × W) A → Exec (PhysicalNode × W) A
  on_node m (p, w) = let (r, (n, w')) = m (p.node, w) in (r, (record p { node = n }, w'))

  abbrev update : (PhysicalNode → PhysicalNode) → Exec (PhysicalNode × W) (Unit {0})
  update f (p, w) = (ok tt, (f p, w))

  -- if self.backend is not None: self.backend.close(); self.backend = None
  abbrev close_old : Exec (PhysicalNode × W) (Unit {0})
  close_old (p, w) = elim p.node.backend [
    | none ↦ (ok tt, (p, w))
    | some b ↦ (do on_node (on_backend b Backend.close); update (set_backend none)) (p, w)
  ]

  unfoldable pub choose_backend : PhysicalNode → Exec W Backend
  choose_backend p =
      if p.backend_type == "http"
      then new_http (host_port p.host p.port)
      else if p.backend_type == "grpc"
      then new_grpc p.port
      else raise value_error

  abbrev subscribe : Exec (PhysicalNode × W) (Unit {0})
  subscribe (p, w) = elim p.node.backend [
    | none ↦ (err attribute_error, (p, w))
    | some b ↦ on_node (on_backend b Backend.subscribe) (p, w)
  ]

  abbrev open_new : Exec (PhysicalNode × W) (Unit {0})
  open_new (p, w) =
      (do
        b ← call (choose_backend p)
        update (set_backend (some b))
        subscribe
        update (λ q. record q { connected = true }))
        (p, w)

  -- The handler: what `close` raises is dropped, the backend is unset and the error goes on.
  abbrev close_quietly : Exec (PhysicalNode × W) (Unit {0})
  close_quietly (p, w) = elim p.node.backend [
    | none ↦ (ok tt, (p, w))
    | some b ↦ (try on_node (on_backend b Backend.close) except λ e. pure tt) (p, w)
  ]

  abbrev clean_up : Exc → Exec (PhysicalNode × W) (Unit {0})
  clean_up e = do close_quietly; update (set_backend none); raise e

  unfoldable pub connect : Exec (PhysicalNode × W) (Unit {0})
  connect = do close_old; update (λ p. record p { connected = false }); try open_new except clean_up

  abbrev lose_link : Exc → Exec (PhysicalNode × W) SwarmSnapshot
  lose_link e (p, w) = (err e, (if is_os_error e then record p { connected = false } else p, w))

  unfoldable pub get_state : Exec (PhysicalNode × W) SwarmSnapshot
  get_state = try on_node Node.get_state except lose_link

  unfoldable pub start_auto_reconnect : Option ℕ → Exec (PhysicalNode × W) (Unit {0})
  start_auto_reconnect interval (p, w) =
      if thread_runs p.reconnect_thread w
      then (ok tt, (p, w))
      else (let (e, w₁) = o.new_event w in
          let (t, w₂) = o.start_thread w₁ in
          let q = set_interval interval p in
          (ok tt, (record q { reconnect_thread = some t; reconnect_stop_event = some e }, w₂)))

  unfoldable pub stop_auto_reconnect : Exec (PhysicalNode × W) (Unit {0})
  stop_auto_reconnect (p, w) =
      let w₁ = set_if_some p.reconnect_stop_event w in
      elim p.reconnect_thread [
        | none ↦ (ok tt, (p, w₁))
        | some t ↦ (
          ok tt,
          (record p { reconnect_thread = none; reconnect_stop_event = none }, o.join t w₁),
        )
      ]

  unfoldable pub close : Exec (PhysicalNode × W) (Unit {0})
  unfolding stop_auto_reconnect
  close = do stop_auto_reconnect; on_node Node.close; update (λ p. record p { connected = false })

  -- One round of `_reconnect_loop` before its wait.
  unfoldable pub reconnect_cycle : Exec (PhysicalNode × W) (Unit {0})
  unfolding connect
  reconnect_cycle (p, w) =
      if p.connected then (ok tt, (p, w)) else (try connect except λ e. pure tt) (p, w)

  abbrev on_event :
      {A : Type 0} → Option ℕ → (ℕ → Exec (PhysicalNode × W) A) → Exec (PhysicalNode × W) A
  on_event none f = raise attribute_error
  on_event (some e) f = f e

  abbrev wait_interval : Exec (PhysicalNode × W) (Unit {0})
  wait_interval (p, w) =
      on_event p.reconnect_stop_event
        (λ e (q, v). (ok tt, (q, o.wait_event e q.reconnect_interval v))) (p, w)

  -- `true` when the loop has ended, `false` when it is still running after `rounds` rounds.
  unfoldable pub reconnect_loop : ℕ → Exec (PhysicalNode × W) Bool
  unfolding reconnect_cycle
  reconnect_loop zero (p, w) = (ok false, (p, w))
  reconnect_loop (suc rounds) (p, w) =
      let again : Exec (PhysicalNode × W) Bool = do
        reconnect_cycle
        wait_interval
        reconnect_loop rounds
      in on_event p.reconnect_stop_event
        (λ e (q, v). if o.is_set e v then (ok true, (q, v)) else again (q, v)) (p, w)

  abbrev signal_all : List ℕ → ℕ → Exec (PhysicalNode × W) (Unit {0})
  signal_all cbs nid = for_each cbs (λ cb. call (o.signal cb nid))

  abbrev signal_user : Option ℕ → ℕ → Exec (PhysicalNode × W) (Unit {0})
  signal_user none nid = pure tt
  signal_user (some cb) nid = call (o.signal cb nid)

  -- `_combined_on_dead` of `start_heartbeat_monitor`
  unfoldable pub combined_on_dead : Option ℕ → ℕ → Exec (PhysicalNode × W) (Unit {0})
  unfolding for_each
  combined_on_dead on_dead nid (p, w) =
      (do
        update (λ q. record q { seen_node_ids = discard nid q.seen_node_ids })
        signal_all p.leave_callbacks nid
        signal_user on_dead nid)
        (p, w)

  -- the thread that `start_heartbeat_monitor` starts
  unfoldable pub monitor_loop : ℕ → ℕ → ℕ → Option ℕ → Exec (PhysicalNode × W) Bool
  unfolding combined_on_dead
  monitor_loop rounds interval timeout on_dead =
      heartbeat_loop rounds (λ p. p.node) interval timeout (some (combined_on_dead on_dead))

  abbrev pub first_seen : ℕ → Exec (PhysicalNode × W) (Unit {0})
  first_seen nid (p, w) =
      if contains p.seen_node_ids nid
      then (ok tt, (p, w))
      else (do
        update (λ q. record q { seen_node_ids = add nid q.seen_node_ids })
        signal_all p.join_callbacks nid)
          (p, w)

  unfoldable pub notice_all : List NodeState → Exec (PhysicalNode × W) (Unit {0})
  unfolding for_each
  notice_all nodes = for_each nodes (λ s. first_seen s.node_id)

  unfoldable pub dispatch_update : SwarmSnapshot → Exec (PhysicalNode × W) (Unit {0})
  unfolding notice_all
  dispatch_update snapshot = do notice_all snapshot.nodes; on_node (Node.dispatch_update snapshot)
