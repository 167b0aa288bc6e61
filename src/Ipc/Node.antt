-- ===== src/Ipc/Node.antt =====
-- _ipc_node_base.py: the connection, the listeners and the liveness monitor that both kinds of
-- device share.
pub mod Monitor
pub mod Routing
pub mod Closing
use fcpp_bridge.Prelude.{
  ℕ, zero, suc, String, Bool, true, false, not, Option, none, some, List, [], ◌∷◌, nat_key,
  if◌then◌else◌,
}
use fcpp_bridge.Prelude.Dict.{Dict, lookup, insert}
use fcpp_bridge.Ipc.Exec.{
  Result, ok, err, Exec, runtime_error, attribute_error, pure, raise, lift, continue, ◌>>=◌, ◌>>◌,
  for_each,
}
use fcpp_bridge.Ipc.Wire.{NodeState, SwarmSnapshot}
use fcpp_bridge.Ipc.Outside.{Outside, call, thread_runs, set_if_some, join_if_some}
use fcpp_bridge.Ipc.Backend
use fcpp_bridge.Ipc.Backend.{Backend, fetch_state}
use fcpp_bridge.Ipc.Listeners
use fcpp_bridge.Ipc.Listeners.{ListenerProxy, parse_mode, new_proxy, close_proxy, dispatch}
use fcpp_bridge.Ipc.Liveness.{Strategy, passive, on_snapshot, forget, check}

pub record IpcNode : Type 0 where
  pub backend : Option Backend
  pub listener_mode : String
  pub strategy : Strategy
  pub heartbeat_thread : Option ℕ
  pub heartbeat_stop_event : Option ℕ
  pub global_listener : Option ListenerProxy
  pub node_listeners : Dict ℕ ListenerProxy

-- liveness_strategy if liveness_strategy is not None else PassiveHeartbeatStrategy()
abbrev pub or_passive : Option Strategy → Strategy
or_passive (some s) = s
or_passive none = passive (record { timeout = 30; timestamps = [] })

-- __init__(listener_mode, liveness_strategy)
unfoldable pub new_node : String → Option Strategy → IpcNode
new_node mode strategy = record {
  backend = none;
  listener_mode = mode;
  strategy = or_passive strategy;
  heartbeat_thread = none;
  heartbeat_stop_event = none;
  global_listener = none;
  node_listeners = [];
}

-- if self._global_listener is not None: self._global_listener.close()
abbrev pub close_global : Option ListenerProxy → Option ListenerProxy
close_global none = none
close_global (some p) = some (close_proxy p)

-- the methods of a proxy, on the state of a method of the node
abbrev put_global : ListenerProxy → IpcNode → IpcNode
put_global p n = record n { global_listener = some p }

abbrev put_proxy : ℕ → ListenerProxy → IpcNode → IpcNode
put_proxy i p n = record n { node_listeners = insert i p n.node_listeners }

module _ {W : Type 0} ⦃o : Outside W⦄ where
  -- a method of the backend that may change the backend
  abbrev pub on_backend : Backend → Exec (Backend × W) (Unit {0}) → Exec (IpcNode × W) (Unit {0})
  on_backend b m (n, w) = let (r, (b', w')) = m (b, w) in (r, (record n { backend = some b' }, w'))

  unfoldable pub update_heartbeats : SwarmSnapshot → Exec (IpcNode × W) (Unit {0})
  update_heartbeats snapshot (n, w) =
      (ok tt, (record n { strategy = on_snapshot (o.clock w) snapshot n.strategy }, w))

  unfoldable pub get_state : Exec (IpcNode × W) SwarmSnapshot
  unfolding update_heartbeats
  get_state (n, w) = elim n.backend [
    | none ↦ (err runtime_error, (n, w))
    | some b ↦
        (do snapshot ← call (fetch_state b); update_heartbeats snapshot; pure snapshot) (n, w)
  ]

  -- The `close` of the old strategy does nothing for the three built-in classes.
  unfoldable pub set_liveness_strategy : Strategy → Exec (IpcNode × W) (Unit {0})
  set_liveness_strategy s (n, w) = (ok tt, (record n { strategy = s }, w))

  unfoldable pub discard_from_liveness : ℕ → Exec (IpcNode × W) (Unit {0})
  discard_from_liveness i (n, w) = (ok tt, (record n { strategy = forget i n.strategy }, w))

  unfoldable pub check_liveness : ℕ → IpcNode → Exec W (Dict ℕ Bool)
  check_liveness timeout n = check (some timeout) none n.backend n.strategy

  unfoldable pub start_heartbeat_monitor : Exec (IpcNode × W) (Unit {0})
  start_heartbeat_monitor (n, w) =
      if thread_runs n.heartbeat_thread w
      then (ok tt, (n, w))
      else (let (e, w₁) = o.new_event w in
          let (t, w₂) = o.start_thread w₁ in
          (ok tt, (record n { heartbeat_thread = some t; heartbeat_stop_event = some e }, w₂)))

  unfoldable pub stop_heartbeat_monitor : Exec (IpcNode × W) (Unit {0})
  stop_heartbeat_monitor (n, w) =
      let w₁ = set_if_some n.heartbeat_stop_event w in
      elim n.heartbeat_thread [
        | none ↦ (ok tt, (n, w₁))
        | some t ↦ (
          ok tt,
          (record n { heartbeat_thread = none; heartbeat_stop_event = none }, o.join t w₁),
        )
      ]

  abbrev pub drop_backend : Exec (IpcNode × W) (Unit {0})
  drop_backend (n, w) = (ok tt, (record n { backend = none }, w))

  close_backend : Exec (IpcNode × W) (Unit {0})
  close_backend (n, w) = elim n.backend [
    | none ↦ (ok tt, (n, w))
    | some b ↦ (do on_backend b Backend.close; drop_backend) (n, w)
  ]

  close_listener : Exec (IpcNode × W) (Unit {0})
  close_listener (n, w) =
      (ok tt, (record n { global_listener = close_global n.global_listener }, w))

  unfoldable pub close : Exec (IpcNode × W) (Unit {0})
  unfolding stop_heartbeat_monitor close_listener close_backend
  close = do stop_heartbeat_monitor; close_listener; close_backend

  -- A method of a proxy that the node holds; `put` writes it back.
  abbrev on_proxy :
      {A : Type 0}
      → (ListenerProxy → IpcNode → IpcNode)
      → ListenerProxy
      → Exec ListenerProxy A
      → Exec (IpcNode × W) A
  on_proxy put p m (n, w) = let (r, p') = m p in (r, (put p' n, w))

  unfoldable pub add_listener : ℕ → Exec (IpcNode × W) ℕ
  add_listener fn (n, w) = elim n.global_listener [
    | some p ↦ on_proxy put_global p (Listeners.add_listener fn) (n, w)
    | none ↦
        (do
          mode ← lift (parse_mode n.listener_mode)
          on_proxy put_global (new_proxy mode) (Listeners.add_listener fn))
          (n, w)
  ]

  unfoldable pub remove_listener : ℕ → Exec (IpcNode × W) (Unit {0})
  remove_listener lid (n, w) = elim n.global_listener [
    | some p ↦ on_proxy put_global p (Listeners.remove_listener lid) (n, w)
    | none ↦ (err runtime_error, (n, w))
  ]

  unfoldable pub add_node_listener : ℕ → ℕ → Exec (IpcNode × W) ℕ
  add_node_listener i fn (n, w) = elim (lookup i n.node_listeners) [
    | some p ↦ on_proxy (put_proxy i) p (Listeners.add_listener fn) (n, w)
    | none ↦
        (do
          mode ← lift (parse_mode n.listener_mode)
          on_proxy (put_proxy i) (new_proxy mode) (Listeners.add_listener fn))
          (n, w)
  ]

  unfoldable pub remove_node_listener : ℕ → ℕ → Exec (IpcNode × W) (Unit {0})
  remove_node_listener i lid (n, w) = elim (lookup i n.node_listeners) [
    | some p ↦ on_proxy (put_proxy i) p (Listeners.remove_listener lid) (n, w)
    | none ↦ (err runtime_error, (n, w))
  ]

  -- The listener of the node, or else the global one, or none.
  unfoldable pub route : IpcNode → SwarmSnapshot → ℕ → Exec W (Unit {0})
  route n snapshot i = elim (lookup i n.node_listeners) [
    | some p ↦ dispatch p snapshot
    | none ↦ elim n.global_listener [ some p ↦ dispatch p snapshot | none ↦ pure tt ]
  ]

  route_all : SwarmSnapshot → Exec (IpcNode × W) (Unit {0})
  route_all snapshot (n, w) =
      call (for_each snapshot.nodes (λ node. route n snapshot node.node_id)) (n, w)

  unfoldable pub dispatch_update : SwarmSnapshot → Exec (IpcNode × W) (Unit {0})
  unfolding update_heartbeats route_all
  dispatch_update snapshot = do update_heartbeats snapshot; route_all snapshot

-- The monitor thread, over a device `S` whose base is read by `base`.
module _ {W S : Type 0} ⦃o : Outside W⦄ where
  -- for nid, alive in liveness.items(): if not alive: on_dead(nid)
  unfoldable pub report_dead : (ℕ → Exec (S × W) (Unit {0})) → Dict ℕ Bool → Exec (S × W) (Unit {0})
  report_dead on_dead [] = pure tt
  report_dead on_dead ((i, true) ∷ rest) = report_dead on_dead rest
  report_dead on_dead ((i, false) ∷ rest) = do on_dead i; report_dead on_dead rest

  -- if on_dead is not None
  abbrev report_to : Option (ℕ → Exec (S × W) (Unit {0})) → Dict ℕ Bool → Exec (S × W) (Unit {0})
  report_to none liveness = pure tt
  report_to (some on_dead) liveness = report_dead on_dead liveness

  unfoldable pub heartbeat_cycle :
      (S → IpcNode) → ℕ → Option (ℕ → Exec (S × W) (Unit {0})) → Exec (S × W) (Unit {0})
  unfolding report_dead
  heartbeat_cycle base timeout on_dead (s, w) =
      (do liveness ← call (check_liveness timeout (base s)); report_to on_dead liveness) (s, w)

  -- The attribute is read again for each call on it, and may be `None` by then.
  abbrev on_event : {A : Type 0} → Option ℕ → (ℕ → Exec (S × W) A) → Exec (S × W) A
  on_event none f = raise attribute_error
  on_event (some e) f = f e

  abbrev wait_for : (S → IpcNode) → ℕ → Exec (S × W) (Unit {0})
  wait_for base interval (s, w) =
      on_event (base s).heartbeat_stop_event (λ e (t, v). (ok tt, (t, o.wait_event e interval v)))
        (s, w)

  -- `true` when the loop has ended, `false` when it is still running after `rounds` rounds.
  unfoldable pub heartbeat_loop :
      ℕ → (S → IpcNode) → ℕ → ℕ → Option (ℕ → Exec (S × W) (Unit {0})) → Exec (S × W) Bool
  unfolding heartbeat_cycle
  heartbeat_loop zero base interval timeout on_dead (s, w) = (ok false, (s, w))
  heartbeat_loop (suc rounds) base interval timeout on_dead (s, w) =
      let again : Exec (S × W) Bool = do
        heartbeat_cycle base timeout on_dead
        wait_for base interval
        heartbeat_loop rounds base interval timeout on_dead
      in on_event (base s).heartbeat_stop_event
        (λ e (t, v). if o.is_set e v then (ok true, (t, v)) else again (t, v)) (s, w)
