-- ===== src/Ipc/Backend/Errors.antt =====
-- Which exceptions leave the methods of the backends.
use fcpp_bridge.Prelude.{◌≡◌, none, arith}
use fcpp_bridge.Ipc.Exec.{Exc, ok, err, runtime_error}
use fcpp_bridge.Ipc.Wire.{Command}
use fcpp_bridge.Ipc.Outside.{Outside}
use fcpp_bridge.Ipc.Backend.{
  UnixSocketBackend, Backend, unix, http, grpc, send_command, fetch_state, close,
}

-- The backends that a physical node uses.
abbrev pub IsRemote : Backend → Type 0
IsRemote (unix b) = ⊥
IsRemote (http b) = Unit
IsRemote (grpc b) = Unit

module _ {W : Type 0} ⦃o : Outside W⦄ where
  -- Whatever goes wrong in an exchange over HTTP or gRPC, the caller sees a RuntimeError.
  pub remote_errors :
      (b : Backend) (cmd : Command) (w : W) {e : Exc}
      → IsRemote b
      → (send_command b cmd w).0 ≡ err e
      → e ≡ runtime_error
  unfolding send_command
  remote_errors (unix b) cmd w r h = elim r [ ]
  remote_errors (http b) cmd w r h = ground arith
  remote_errors (grpc b) cmd w r h = ground arith

  pub fetch_state_errors :
      (b : Backend) (w : W) {e : Exc} → IsRemote b → (fetch_state b w).0 ≡ err e → e ≡ runtime_error
  unfolding fetch_state
  fetch_state_errors (unix b) w r h = elim r [ ]
  fetch_state_errors (http b) w r h = ground arith
  fetch_state_errors (grpc b) w r h = ground arith

  -- A socket that was closed refuses every command with a RuntimeError.
  pub send_command-close :
      (b : UnixSocketBackend) (cmd : Command) (w v : W) {c : Backend}
      → close (unix b, w) ≡ (ok tt, (c, v))
      → send_command c cmd v ≡ (err runtime_error, v)
  unfolding send_command close
  send_command-close b cmd w v {c = unix d} h =
      let gone : d.sock ≡ none = ground arith in rw (gone, send_command)
  send_command-close b cmd w v {c = http d} h = ground arith
  send_command-close b cmd w v {c = grpc d} h = ground arith
