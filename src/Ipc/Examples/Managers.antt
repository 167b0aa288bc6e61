-- ===== src/Ipc/Examples/Managers.antt =====
-- A fleet of one simulation and one physical device in the world of the examples.
use fcpp_bridge.Prelude.{
  String, ◌≡◌, refl, Bool, false, none, some, [], ◌∷◌, string_key, ◌==◌, if◌then◌else◌,
}
use fcpp_bridge.Prelude.Dict.{Dict, keys, lookup, has, IsDict}
use fcpp_bridge.Ipc.Exec.{ok, err, key_error, other}
use fcpp_bridge.Ipc.Wire.{step, raw, Reply}
use fcpp_bridge.Ipc.Swarm.{new_swarm}
use fcpp_bridge.Ipc.Physical.{new_physical}
use fcpp_bridge.Ipc.Manager.{
  Device, simulation, physical, DeviceManager, Report, set_device, close_device, remove_device,
  step_all, send_all,
}
use fcpp_bridge.Ipc.Manager.Server.{rejected, do_post, serve, Posted}
use fcpp_bridge.Ipc.Manager.Registry.{remove_device_effect}
use fcpp_bridge.Ipc.Manager.Fleet.{all_stepped, step_all_visits}
use fcpp_bridge.Ipc.Manager.Reports.{silent, offline, send_all_reports}
use fcpp_bridge.Ipc.Manager.Registration.{
  posted_device, Carries, do_post_callback_raises, serve_keeps_devices,
}
use fcpp_bridge.Ipc.Examples.{tick, registration, world}

abbrev same_text : String → String → Bool
same_text a b = a == b

abbrev swarm : Device
swarm = simulation (new_swarm "swarm" 2 "unix" none "sequential" none)

abbrev robot : Device
robot = physical (new_physical "h" 8080 "http" 5 "sequential" none)

abbrev fleet : DeviceManager
fleet = record {
  devices = ("swarm", swarm) ∷ ("robot", robot) ∷ [];
  registration_thread = some 2;
  registration_stop_event = some 1;
  registration_port = some 9000;
  registration_callback = some 70;
}

fleet-IsDict : IsDict fleet.devices
unfolding has
fleet-IsDict = (refl, (refl, tt))

abbrev drone : Posted
drone = record { name = "drone"; host = "h"; port = 8080; backend = "http" }

drone-Carries : Carries world.json_loads world.to_int "{}" drone
unfolding lookup
drone-Carries = record {
  port_json = raw "8080";
  fields = registration;
  decoded = refl;
  name_there = refl;
  host_there = refl;
  port_there = refl;
  port_read = refl;
  backend_there = refl;
}

remove_device_effect_example :
    let (r, (m, w)) = remove_device "robot" (fleet, tick 0) in
    (r ≡ elim (lookup "robot" fleet.devices) [
      | none ↦ err key_error
      | some d ↦ (close_device (d, tick 0)).0
    ])
    × (has "swarm" m.devices ≡ elim r [
      | ok u ↦ if same_text "robot" "swarm" then false else has "swarm" fleet.devices
      | err e ↦ has "swarm" fleet.devices
    ])
remove_device_effect_example = remove_device_effect "robot" "swarm" fleet (tick 0) fleet-IsDict

step_all_visits_example :
    let (ds, v) = all_stepped fleet.devices (tick 0) in
    step_all (fleet, tick 0) ≡ (ok tt, (record fleet { devices = ds }, v))
step_all_visits_example = step_all_visits fleet (tick 0) (λ name e v. refl)

send_all_reports_example :
    let (r, (m, w)) = send_all step (fleet, tick 0) in
    (rs : Dict String (Report Reply)) × (r ≡ ok rs)
    × (keys rs ≡ "swarm" ∷ "robot" ∷ [])
    × (silent rs ≡ offline fleet.devices)
    × (m ≡ fleet)
send_all_reports_example = send_all_reports step fleet (tick 0)

do_post_callback_raises_example :
    let (r, (m, w)) = do_post "/register" "{}" (fleet, tick 0) in
    (r ≡ ok (rejected (other 1))) × (m ≡ set_device "drone" (posted_device drone) fleet)
unfolding has
do_post_callback_raises_example =
    do_post_callback_raises "{}" drone fleet (tick 0) 70 {e = other 1} drone-Carries refl refl refl

serve_keeps_devices_example : lookup "robot" (serve 3 (fleet, tick 0)).1.0.devices ≡ some robot
unfolding lookup
serve_keeps_devices_example = serve_keeps_devices 3 "robot" robot fleet (tick 0) refl
