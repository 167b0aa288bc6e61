-- ===== src/Ipc/Manager.antt =====
-- device_manager.py: a fleet of simulated swarms and physical devices under their names.
pub mod Registry
pub mod Fleet
pub mod Reports
pub mod Server
pub mod Registration
use fcpp_bridge.Prelude.{
  ℕ, zero, suc, ◌+◌, String, Bool, true, false, not, Option, none, some, List, [], ◌∷◌, string_key,
  ◌==◌, if◌then◌else◌, length,
}
use fcpp_bridge.Prelude.Dict.{Dict, keys, lookup, has, insert, remove}
use fcpp_bridge.Ipc.Exec.{
  Exc, Result, ok, err, Exec, value_error, key_error, type_error, assertion_error, attribute_error,
  pure, raise, lift, continue, handle, ◌>>=◌, ◌>>◌, try◌except◌,
}
use fcpp_bridge.Ipc.Wire.{SwarmSnapshot, Command, Json, text, raw, Reply, object, listing, scalar}
use fcpp_bridge.Ipc.Outside.{Outside, call, thread_runs, set_if_some, join_if_some}
use fcpp_bridge.Ipc.Backend.{Backend, send_command}
use fcpp_bridge.Ipc.Liveness.{Strategy}
use fcpp_bridge.Ipc.Node
use fcpp_bridge.Ipc.Node.{IpcNode}
use fcpp_bridge.Ipc.Swarm
use fcpp_bridge.Ipc.Swarm.{SwarmProcess, new_swarm, step_round}
use fcpp_bridge.Ipc.Physical
use fcpp_bridge.Ipc.Physical.{PhysicalNode, new_physical, node_count}

pub data Device : Type 0 where
  simulation : SwarmProcess → Device
  physical : PhysicalNode → Device

pub record DeviceManager : Type 0 where
  pub devices : Dict String Device
  pub registration_thread : Option ℕ
  pub registration_stop_event : Option ℕ
  pub registration_port : Option ℕ
  pub registration_callback : Option ℕ

-- __init__
unfoldable pub new_manager : DeviceManager
new_manager = record {
  devices = [];
  registration_thread = none;
  registration_stop_event = none;
  registration_port = none;
  registration_callback = none;
}

-- device.backend
abbrev pub backend_of : Device → Option Backend
backend_of (simulation s) = s.node.backend
backend_of (physical p) = p.node.backend

-- device.node_count
abbrev pub count_of : Device → ℕ
count_of (simulation s) = s.num_nodes
count_of (physical p) = node_count p

-- device_names, device_count
abbrev pub device_names : DeviceManager → List String
device_names m = keys m.devices

unfoldable pub device_count : DeviceManager → ℕ
device_count m = length m.devices

-- total_nodes
abbrev pub count_all : Dict String Device → ℕ
count_all [] = 0
count_all ((name, d) ∷ ds) = count_of d + count_all ds

unfoldable pub total_nodes : DeviceManager → ℕ
total_nodes m = count_all m.devices

abbrev pub set_device : String → Device → DeviceManager → DeviceManager
set_device name d m = record m { devices = insert name d m.devices }

-- if name in self._devices: raise ValueError; self._devices[name] = device
unfoldable pub register : {W : Type 0} → String → Device → Exec (DeviceManager × W) (Unit {0})
register name d (m, w) =
    if has name m.devices then (err value_error, (m, w)) else (ok tt, (set_device name d m, w))

-- The answer for one device in the dict that `send_all` and `get_all_states` return.
pub data Report (A : Type 0) : Type 0 where
  not_connected : Report A
  failed : Exc → Report A
  got : A → Report A

abbrev pub to_report : {A : Type 0} → Result A → Report A
to_report (ok a) = got a
to_report (err e) = failed e

module _ {W : Type 0} ⦃o : Outside W⦄ where
  -- a method of a device
  abbrev pub on_simulation :
      {A : Type 0} → SwarmProcess → Exec (SwarmProcess × W) A → Exec (Device × W) A
  on_simulation s m (d, w) = let (r, (s', w')) = m (s, w) in (r, (simulation s', w'))

  abbrev pub on_physical :
      {A : Type 0} → PhysicalNode → Exec (PhysicalNode × W) A → Exec (Device × W) A
  on_physical p m (d, w) = let (r, (p', w')) = m (p, w) in (r, (physical p', w'))

  unfoldable pub start_device : Exec (Device × W) (Unit {0})
  start_device (simulation s, w) = on_simulation s Swarm.start (simulation s, w)
  start_device (physical p, w) = (err type_error, (physical p, w))

  unfoldable pub connect_device : Exec (Device × W) (Unit {0})
  connect_device (simulation s, w) = (err type_error, (simulation s, w))
  connect_device (physical p, w) = on_physical p Physical.connect (physical p, w)

  unfoldable pub close_device : Exec (Device × W) (Unit {0})
  close_device (simulation s, w) = on_simulation s Swarm.close (simulation s, w)
  close_device (physical p, w) = on_physical p Physical.close (physical p, w)

  -- `get_state` of the base class, and the one that PhysicalNode puts in its place
  unfoldable pub state_of : Exec (Device × W) SwarmSnapshot
  state_of (simulation s, w) = on_simulation s (Swarm.on_node Node.get_state) (simulation s, w)
  state_of (physical p, w) = on_physical p Physical.get_state (physical p, w)

  unfoldable pub add_simulation :
      String
      → String
      → ℕ
      → String
      → Option ℕ
      → Option Strategy
      → Exec (DeviceManager × W) (Unit {0})
  unfolding register
  add_simulation name path num_nodes backend port strategy =
      register name (simulation (new_swarm path num_nodes backend port "sequential" strategy))

  unfoldable pub add_physical :
      String → String → ℕ → String → ℕ → Option Strategy → Exec (DeviceManager × W) (Unit {0})
  unfolding register
  add_physical name host port backend interval strategy =
      register name (physical (new_physical host port backend interval "sequential" strategy))

  -- self.get(name), and a method of the device, which the dict still holds after it
  unfoldable pub with_device :
      {A : Type 0} → String → Exec (Device × W) A → Exec (DeviceManager × W) A
  with_device name f (m, w) = elim (lookup name m.devices) [
    | none ↦ (err key_error, (m, w))
    | some d ↦ let (r, (d', w')) = f (d, w) in (r, (set_device name d' m, w'))
  ]

  unfoldable pub start : String → Exec (DeviceManager × W) (Unit {0})
  unfolding with_device
  start name = with_device name start_device

  unfoldable pub connect : String → Exec (DeviceManager × W) (Unit {0})
  unfolding with_device
  connect name = with_device name connect_device

  unfoldable pub close : String → Exec (DeviceManager × W) (Unit {0})
  unfolding with_device
  close name = with_device name close_device

  -- `remove`
  unfoldable pub remove_device : String → Exec (DeviceManager × W) (Unit {0})
  unfolding with_device
  remove_device name = do
    with_device name close_device
    λ (m, w). (ok tt, (record m { devices = remove name m.devices }, w))

  -- for name, device in self._devices.items(): body(name, device)
  unfoldable pub on_all :
      (String → Exec (Device × W) (Unit {0}))
      → Dict String Device
      → W
      → Result (Unit {0}) × (Dict String Device × W)
  on_all body [] w = (ok tt, ([], w))
  on_all body ((name, d) ∷ ds) w =
      let (r, (d', w')) = body name (d, w) in
      let (r', (ds', w'')) = continue r (λ a (es, v). on_all body ds v) (ds, w') in
      (r', ((name, d') ∷ ds', w''))

  -- except Exception as exc: self._output.send(event, {"device": name, "error": str(exc)})
  abbrev pub guarded : String → Exec (Device × W) (Unit {0}) → String → Exec (Device × W) (Unit {0})
  guarded event m name = try m except λ e. call (o.emit event name e)

  -- if not isinstance(device, SwarmProcess): continue
  unfoldable pub start_each : String → Exec (Device × W) (Unit {0})
  start_each name (physical p, w) = (ok tt, (physical p, w))
  start_each name (simulation s, w) = guarded "start_all" start_device name (simulation s, w)

  unfoldable pub connect_each : String → Exec (Device × W) (Unit {0})
  connect_each name (simulation s, w) = (ok tt, (simulation s, w))
  connect_each name (physical p, w) = guarded "connect_all" connect_device name (physical p, w)

  abbrev pub step_device : SwarmProcess → Exec (Device × W) (Unit {0})
  step_device s = on_simulation s step_round

  unfoldable pub step_each : String → Exec (Device × W) (Unit {0})
  step_each name (physical p, w) = (ok tt, (physical p, w))
  step_each name (simulation s, w) = elim s.node.backend [
    | none ↦ (ok tt, (simulation s, w))
    | some b ↦ guarded "step_all" (step_device s) name (simulation s, w)
  ]

  abbrev pub fleet : (String → Exec (Device × W) (Unit {0})) → Exec (DeviceManager × W) (Unit {0})
  fleet body (m, w) =
      let (r, (ds, w')) = on_all body m.devices w in (r, (record m { devices = ds }, w'))

  unfoldable pub start_all : Exec (DeviceManager × W) (Unit {0})
  unfolding on_all
  start_all = fleet start_each

  unfoldable pub connect_all : Exec (DeviceManager × W) (Unit {0})
  unfolding on_all
  connect_all = fleet connect_each

  unfoldable pub step_all : Exec (DeviceManager × W) (Unit {0})
  unfolding on_all
  step_all = fleet step_each

  unfoldable pub close_all : Exec (DeviceManager × W) (Unit {0})
  unfolding on_all
  close_all = fleet (guarded "close_all" close_device)

  -- results[name] = ...; the names of a dict are distinct, so each answer is a new entry
  unfoldable pub report_each :
      {A : Type 0}
      → Exec (Device × W) A
      → Dict String Device
      → W
      → Dict String (Report A) × (Dict String Device × W)
  report_each ask [] w = ([], ([], w))
  report_each ask ((name, d) ∷ ds) w = elim (backend_of d) [
    | none ↦
        let (rs, (ds', w')) = report_each ask ds w in
        ((name, not_connected) ∷ rs, ((name, d) ∷ ds', w'))
    | some b ↦
        let (r, (d', w₁)) = ask (d, w) in
        let (rs, (ds', w₂)) = report_each ask ds w₁ in
        ((name, to_report r) ∷ rs, ((name, d') ∷ ds', w₂))
  ]

  abbrev pub send_to : Command → Exec (Device × W) Reply
  send_to cmd (d, w) = elim (backend_of d) [
    | none ↦ (err attribute_error, (d, w))
    | some b ↦ call (send_command b cmd) (d, w)
  ]

  abbrev pub ask_fleet :
      {A : Type 0} → Exec (Device × W) A → Exec (DeviceManager × W) (Dict String (Report A))
  ask_fleet ask (m, w) =
      let (rs, (ds, w')) = report_each ask m.devices w in (ok rs, (record m { devices = ds }, w'))

  unfoldable pub send_all : Command → Exec (DeviceManager × W) (Dict String (Report Reply))
  unfolding report_each
  send_all cmd = ask_fleet (send_to cmd)

  unfoldable pub get_all_states : Exec (DeviceManager × W) (Dict String (Report SwarmSnapshot))
  unfolding report_each
  get_all_states = ask_fleet state_of
