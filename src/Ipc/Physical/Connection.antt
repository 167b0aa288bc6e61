-- ===== src/Ipc/Physical/Connection.antt =====
-- `connect`, `get_state`, `close` and the reconnect loop of physical_node.py.
use fcpp_bridge.Prelude.{◌≡◌, Bool, true, false, Option, none, some, arith, string_key}
use fcpp_bridge.Ipc.Exec.{Exc, Result, ok, err}
use fcpp_bridge.Ipc.Outside.{Outside}
use fcpp_bridge.Ipc.Backend.{Backend}
use fcpp_bridge.Ipc.Backend.Errors.{IsRemote, fetch_state_errors}
use fcpp_bridge.Ipc.Node
use fcpp_bridge.Ipc.Node.{IpcNode}
use fcpp_bridge.Ipc.Node.Monitor.{IsPaired}
use fcpp_bridge.Ipc.Node.Closing.{IsClosed, close-IsClosed}
use fcpp_bridge.Ipc.Physical.{
  PhysicalNode, connect, get_state, reconnect_cycle, stop_auto_reconnect, close,
}

-- A node is marked as connected only if it has a backend.
abbrev pub IsLinked : Bool → Option Backend → Type 0
IsLinked true none = ⊥
IsLinked _ _ = Unit

abbrev pub HasBackend : Option Backend → Type 0
HasBackend none = ⊥
HasBackend (some b) = Unit

-- What `connect` leaves behind: a connection, or no trace of one.
abbrev pub Outcome : Result (Unit {0}) → PhysicalNode → Type 0
Outcome (ok a) q = (q.connected ≡ true) × HasBackend q.node.backend
Outcome (err e) q = (q.connected ≡ false) × (q.node.backend ≡ none)

module _ {W : Type 0} ⦃o : Outside W⦄ where
  -- From a node without a backend, `connect` returns with a backend and the mark, or raises with
  -- neither, at whichever step the attempt failed.
  pub connect-Outcome :
      (p : PhysicalNode) (w : W)
      → p.node.backend ≡ none
      → Outcome (connect (p, w)).0 (connect (p, w)).1.0
  unfolding connect
  connect-Outcome p w h = ground arith

  -- `connect` and `get_state` keep a marked node linked, whether they return or raise.
  pub IsLinked-kept :
      (p : PhysicalNode) (w : W)
      → IsLinked p.connected p.node.backend
      → let c = (connect (p, w)).1.0 in
        let g = (get_state (p, w)).1.0 in
        IsLinked c.connected c.node.backend × IsLinked g.connected g.node.backend
  unfolding connect get_state Node.get_state
  IsLinked-kept p w h = (ground arith, ground arith)

  -- When `get_state` over HTTP or gRPC fails on a node that is marked as connected, the node stays
  -- marked, and a round of the reconnect loop does nothing.
  pub reconnect_cycle-idle :
      (p : PhysicalNode) (w : W) (b : Backend) {e : Exc}
      → p.connected ≡ true
      → p.node.backend ≡ some b
      → IsRemote b
      → (get_state (p, w)).0 ≡ err e
      → let after = (get_state (p, w)).1 in
        (after.0.connected ≡ true) × (reconnect_cycle after ≡ (ok tt, after))
  unfolding get_state reconnect_cycle Node.get_state
  reconnect_cycle-idle p w b {e} c h r f =
      let raised = fetch_state_errors b w {e = e} r in
      (ground (arith, raised), ground (arith, raised))

  -- A round of the reconnect loop on a node without a link calls `connect` and swallows its error: the
  -- node is then linked and marked, or neither.
  pub reconnect_cycle_attempt :
      (p : PhysicalNode) (w : W)
      → p.connected ≡ false
      → p.node.backend ≡ none
      → ((reconnect_cycle (p, w)).0 ≡ ok tt)
        × Outcome (connect (p, w)).0 (reconnect_cycle (p, w)).1.0
  unfolding reconnect_cycle
  reconnect_cycle_attempt p w c h = ground (arith, connect-Outcome p w h)

  -- A `close` that does not raise leaves no reconnect thread, no monitor thread, no stop events, no
  -- backend and no mark, where threads and events came in pairs.
  pub close_outcome :
      (p : PhysicalNode) (w : W)
      → IsPaired p.reconnect_thread p.reconnect_stop_event
      → IsPaired p.node.heartbeat_thread p.node.heartbeat_stop_event
      → (close (p, w)).0 ≡ ok tt
      → let q = (close (p, w)).1.0 in
        (q.connected ≡ false)
        × (q.reconnect_thread ≡ none)
        × (q.reconnect_stop_event ≡ none)
        × IsClosed q.node
  unfolding close stop_auto_reconnect
  close_outcome p w h k e =
      let v = (stop_auto_reconnect (p, w)).1.1 in
      let closed = close-IsClosed p.node v k in
      (
        ground (arith, closed),
        ground (arith, closed),
        ground (arith, closed),
        ground (arith, closed),
      )
