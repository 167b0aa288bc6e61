-- ===== src/Ipc/Listeners/Dispatch.antt =====
-- The order in which listener_proxy.py calls its listeners.
use fcpp_bridge.Prelude.{ℕ, ◌≡◌, arith}
use fcpp_bridge.Prelude.Dict.{values-insert_new}
use fcpp_bridge.Ipc.Exec.{◌>>◌, for_each, for_each-append}
use fcpp_bridge.Ipc.Wire.{SwarmSnapshot}
use fcpp_bridge.Ipc.Outside.{Outside}
use fcpp_bridge.Ipc.Listeners.{ListenerProxy, add_listener, dispatch, deliver}
use fcpp_bridge.Ipc.Listeners.Ids.{IsFresh, next_id_unused}

module _ {W : Type 0} ⦃o : Outside W⦄ where
  -- In either mode a listener that was added last is reached last, after all the others and only
  -- if none of them raised.
  pub dispatch-add_listener :
      (fn : ℕ) (p : ListenerProxy) (snapshot : SwarmSnapshot) (w : W)
      → IsFresh p
      → dispatch (add_listener fn p).1 snapshot w
        ≡ (dispatch p snapshot >> deliver p.mode p.executor snapshot fn) w
  unfolding dispatch add_listener for_each
  dispatch-add_listener fn p snapshot w h =
      rw (values-insert_new p.next_id fn p.listeners (next_id_unused p h))
        (rw for_each-append (ground arith))
