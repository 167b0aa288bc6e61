-- ===== src/Ipc/Outside.antt =====
-- What the package calls and does not implement: the clock, threads and events, the network
-- libraries, subprocesses, and the callbacks of the user. `W` is the state of all of it. A call
-- returns or raises, and changes `W` as it likes; a callback does not reenter the object.
use fcpp_bridge.Prelude.{ℕ, String, Bool, false, Option, none, some}
use fcpp_bridge.Ipc.Exec.{Exc, Result, ok, Exec}
use fcpp_bridge.Ipc.Wire.{SwarmSnapshot, Url, Command, Json, Reply}

pub record Outside (W : Type 0) : Type 0 where
  -- time.time()
  pub clock : W → ℕ
  -- threading: Event(), event.set(), is_set(), wait(seconds), Thread(...).start(), is_alive(),
  -- join(timeout=2.0)
  pub new_event : W → ℕ × W
  pub set_event : ℕ → W → W
  pub is_set : ℕ → W → Bool
  pub wait_event : ℕ → ℕ → W → W
  pub start_thread : W → ℕ × W
  pub is_alive : ℕ → W → Bool
  pub join : ℕ → W → W
  -- an updates listener, a callback on a node id, a job for a thread pool
  pub notify : ℕ → SwarmSnapshot → W → Result (Unit {0}) × W
  pub signal : ℕ → ℕ → W → Result (Unit {0}) × W
  pub submit : ℕ → SwarmSnapshot → W → Result (Unit {0}) × W
  -- socket: connect, one request with its decoded reply, close; the number that a value stands for
  pub sock_connect : String → W → Result ℕ × W
  pub sock_exchange : ℕ → Command → W → Result Reply × W
  pub number_of : Json → ℕ
  pub sock_close : ℕ → W → Result (Unit {0}) × W
  -- requests: post and get with `raise_for_status` and the decoding of the body
  pub http_post : Url → Command → W → Result Reply × W
  pub http_get : Url → W → Result Reply × W
  -- grpc: import with the channel, the generated stub, its calls with their decoding, close
  pub grpc_channel : String → ℕ → W → Result ℕ × W
  pub grpc_stub : ℕ → W → Result ℕ × W
  pub grpc_command : ℕ → Command → W → Result Reply × W
  pub grpc_state : ℕ → W → Result SwarmSnapshot × W
  pub grpc_close : ℕ → W → Result (Unit {0}) × W
  -- subprocess: the binary's existence, Popen, terminate, wait(timeout=5.0), kill
  pub path_exists : String → W → Bool
  pub popen : String → ℕ → W → Result ℕ × W
  pub terminate : ℕ → W → Result (Unit {0}) × W
  pub wait : ℕ → W → Result (Unit {0}) × W
  pub kill : ℕ → W → Result (Unit {0}) × W
  -- random.randint(0, 2**31 - 1)
  pub randint : W → ℕ × W
  -- http.server: HTTPServer(("", port)), the path and body of the request that `handle_request` got
  -- before its timeout, server_close(); json.loads and int() of a JSON value
  pub http_server : Option ℕ → W → Result (Unit {0}) × W
  pub next_request : W → Option (String × String) × W
  pub server_close : W → Result (Unit {0}) × W
  pub json_loads : String → Result Reply
  pub to_int : Json → Result ℕ
  -- the callback `on_registered(name, node)`
  pub registered : ℕ → String → W → Result (Unit {0}) × W
  -- an output channel: send(name, {"device": ..., "error": ...})
  pub emit : String → String → Exc → W → Result (Unit {0}) × W

-- A call of the outside from a method whose state is paired with it.
abbrev pub call : {S W A : Type 0} → Exec W A → Exec (S × W) A
call f (s, w) = let (r, w') = f w in (r, (s, w'))

abbrev pub call_ : {S W : Type 0} → (W → W) → Exec (S × W) (Unit {0})
call_ f (s, w) = (ok tt, (s, f w))

-- A call that does not raise and returns a value.
abbrev pub call_value : {S W A : Type 0} → (W → A × W) → Exec (S × W) A
call_value f (s, w) = let (a, w') = f w in (ok a, (s, w'))

-- thread is not None and thread.is_alive()
abbrev pub thread_runs : {W : Type 0} ⦃o : Outside W⦄ → Option ℕ → W → Bool
thread_runs none w = false
thread_runs ⦃o⦄ (some t) w = o.is_alive t w

-- if event is not None: event.set()
abbrev pub set_if_some : {W : Type 0} ⦃o : Outside W⦄ → Option ℕ → W → W
set_if_some none w = w
set_if_some ⦃o⦄ (some e) w = o.set_event e w

-- if thread is not None: thread.join(timeout=2.0)
abbrev pub join_if_some : {W : Type 0} ⦃o : Outside W⦄ → Option ℕ → W → W
join_if_some none w = w
join_if_some ⦃o⦄ (some t) w = o.join t w
