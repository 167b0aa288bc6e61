-- ===== src/Ipc/Node/Closing.antt =====
-- `close` of _ipc_node_base.py.
use fcpp_bridge.Prelude.{◌≡◌, none, arith}
use fcpp_bridge.Ipc.Exec.{ok}
use fcpp_bridge.Ipc.Outside.{Outside}
use fcpp_bridge.Ipc.Listeners.{close_proxy}
use fcpp_bridge.Ipc.Node.{IpcNode, close, close_global}
use fcpp_bridge.Ipc.Node.Monitor.{IsPaired}

-- Nothing is left for `close` to do.
pub record IsClosed (n : IpcNode) : Type 0 where
  pub backend_gone : n.backend ≡ none
  pub thread_gone : n.heartbeat_thread ≡ none
  pub event_gone : n.heartbeat_stop_event ≡ none

module _ {W : Type 0} ⦃o : Outside W⦄ where
  -- A `close` that does not raise leaves no backend, no monitor thread and no stop event.
  pub close-IsClosed :
      (n : IpcNode) (w : W)
      → IsPaired n.heartbeat_thread n.heartbeat_stop_event
      → (close (n, w)).0 ≡ ok tt
      → IsClosed (close (n, w)).1.0
  unfolding close
  close-IsClosed n w h e = ground arith

  -- Whether `close` raises or not, the monitor is stopped, the listeners of single nodes are left as
  -- they were, and only the global one is closed.
  pub close_listeners :
      (n : IpcNode) (w : W)
      → IsPaired n.heartbeat_thread n.heartbeat_stop_event
      → let m = (close (n, w)).1.0 in
        (m.heartbeat_thread ≡ none)
        × (m.heartbeat_stop_event ≡ none)
        × (m.node_listeners ≡ n.node_listeners)
        × (m.global_listener ≡ close_global n.global_listener)
  unfolding close
  close_listeners n w h = (ground arith, ground arith, ground arith, ground arith)

  -- Closing twice is closing once.
  pub close-close :
      (n : IpcNode) (w : W)
      → IsPaired n.heartbeat_thread n.heartbeat_stop_event
      → (close (n, w)).0 ≡ ok tt
      → close (close (n, w)).1 ≡ close (n, w)
  unfolding close close_proxy
  close-close n w h e = ground arith
