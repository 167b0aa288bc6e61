-- ===== src/Ipc/Backend.antt =====
-- ipc_backend.py, unix_socket_backend.py, http_backend.py, grpc_backend.py: the transports. Each
-- class is a constructor of `Backend`, and a method branches on it.
pub mod Errors
use Prim.Native.Char.{code}
use Prim.Native.String.{String, [], ◌∷◌}
use fcpp_bridge.Prelude.{ℕ, ◌≡◌, Bool, true, false, Option, none, some, nat_eqb, if◌then◌else◌}
use fcpp_bridge.Ipc.Exec.{
  Exc, Result, ok, err, Exec, runtime_error, import_error, timeout_error, pure, raise, lift,
  continue, handle, ◌>>=◌, ◌>>◌, try◌except◌,
}
use fcpp_bridge.Ipc.Wire.{
  SwarmSnapshot, Url, literal, host_port, Command, get_state, Reply, parse_snapshot,
}
use fcpp_bridge.Ipc.Outside.{Outside, call, call_value}

pub record UnixSocketBackend : Type 0 where
  pub socket_path : String
  pub sock : Option ℕ

pub record HttpBackend : Type 0 where
  pub base_url : Url

pub record GrpcBackend : Type 0 where
  pub host : String
  pub port : ℕ
  pub channel : Option ℕ
  pub stub : Option ℕ
  pub stream_thread : Option ℕ
  pub stream_running : Bool

pub data Backend : Type 0 where
  unix : UnixSocketBackend → Backend
  http : HttpBackend → Backend
  grpc : GrpcBackend → Backend

-- base_url.rstrip("/"); a URL built from host and port ends in a digit
is_empty : String → Bool
is_empty [] = true
is_empty (c ∷ s) = false

unfoldable pub rstrip_slash : String → String
unfolding is_empty
rstrip_slash [] = []
rstrip_slash (c ∷ s) =
    let r = rstrip_slash s in
    if is_empty r then (if nat_eqb (code c) b'/' then [] else c ∷ r) else c ∷ r

unfoldable pub strip_url : Url → Url
unfolding rstrip_slash
strip_url (literal s) = literal (rstrip_slash s)
strip_url (host_port h p) = host_port h p

-- except ImportError: raise RuntimeError, in the constructors
abbrev import_failure : Exc → Exc
import_failure import_error = runtime_error
import_failure e = e

-- except ImportError: self.stub = None
abbrev no_stub : {W : Type 0} → Exc → Exec W (Option ℕ)
no_stub import_error = pure none
no_stub e = raise e

abbrev unreachable_socket : Exc → Exc
unreachable_socket Exc.file_not_found = runtime_error
unreachable_socket Exc.connection_refused = runtime_error
unreachable_socket e = e

abbrev timed_out : Exc → Exc
timed_out timeout_error = runtime_error
timed_out e = e

abbrev set_backend : {W : Type 0} → Backend → Exec (Backend × W) (Unit {0})
set_backend b' (b, w) = (ok tt, (b', w))

module _ {W : Type 0} ⦃o : Outside W⦄ where
  -- UnixSocketBackend()
  unfoldable pub new_unix : String → Exec W Backend
  new_unix path = do
    s ← try o.sock_connect path except λ e. raise (unreachable_socket e)
    pure (unix (record { socket_path = path; sock = some s }))

  -- HttpBackend(base_url)
  unfoldable pub new_http : Url → Exec W Backend
  unfolding strip_url
  new_http url = pure (http (record { base_url = strip_url url }))

  -- GrpcBackend(port=port)
  unfoldable pub new_grpc : ℕ → Exec W Backend
  new_grpc port = do
    channel ← try o.grpc_channel "localhost" port except λ e. raise (import_failure e)
    stub ← try (do s ← o.grpc_stub channel; pure (some s)) except λ e. no_stub e
    pure (
        grpc (record {
          host = "localhost";
          port = port;
          channel = some channel;
          stub = stub;
          stream_thread = none;
          stream_running = false;
        }))

  unfoldable pub require_stub : GrpcBackend → Exec W ℕ
  require_stub b = elim b.stub [ none ↦ raise runtime_error | some stub ↦ pure stub ]

  -- backend.send_command(cmd)
  unfoldable pub send_command : Backend → Command → Exec W Reply
  unfolding require_stub
  send_command (unix b) cmd = elim b.sock [
    | none ↦ raise runtime_error
    | some s ↦ try o.sock_exchange s cmd except λ e. raise (timed_out e)
  ]
  send_command (http b) cmd = try o.http_post b.base_url cmd except λ e. raise runtime_error
  send_command (grpc b) cmd = do
    stub ← require_stub b
    try o.grpc_command stub cmd except λ e. raise runtime_error

  -- backend.get_state()
  unfoldable pub fetch_state : Backend → Exec W SwarmSnapshot
  unfolding send_command parse_snapshot
  fetch_state (unix b) = do r ← send_command (unix b) get_state; lift (parse_snapshot o.number_of r)
  fetch_state (http b) =
      try (do r ← o.http_get b.base_url; lift (parse_snapshot o.number_of r)) except λ e.
      raise runtime_error
  fetch_state (grpc b) = do
    stub ← require_stub b
    try o.grpc_state stub except λ e. raise runtime_error

  -- backend.subscribe_state_updates(callback); the base class does nothing
  unfoldable pub subscribe : Exec (Backend × W) (Unit {0})
  unfolding require_stub
  subscribe (unix b, w) = pure tt (unix b, w)
  subscribe (http b, w) = pure tt (http b, w)
  subscribe (grpc b, w) =
      (do
        call (require_stub b)
        set_backend (grpc (record b { stream_running = true }))
        t ← call_value o.start_thread
        set_backend (grpc (record b { stream_running = true; stream_thread = some t })))
        (grpc b, w)

  close_channel : GrpcBackend → Exec (Backend × W) (Unit {0})
  close_channel b = elim b.channel [
    | none ↦ pure tt
    | some c ↦ do
      call (o.grpc_close c)
      set_backend (grpc (record b { stream_running = false; channel = none }))
  ]

  join_stream : Option ℕ → Exec (Backend × W) (Unit {0})
  join_stream none = pure tt
  join_stream (some t) = λ (b, w). (ok tt, (b, if o.is_alive t w then o.join t w else w))

  -- backend.close()
  unfoldable pub close : Exec (Backend × W) (Unit {0})
  unfolding close_channel join_stream
  close (unix b, w) = elim b.sock [
    | none ↦ (ok tt, (unix b, w))
    | some s ↦ (do call (o.sock_close s); set_backend (unix (record b { sock = none }))) (unix b, w)
  ]
  close (http b, w) = (ok tt, (http b, w))
  close (grpc b, w) =
      (do
        set_backend (grpc (record b { stream_running = false }))
        join_stream b.stream_thread
        close_channel b)
        (grpc b, w)
