-- ===== src/Ipc/Manager/Reports.antt =====
-- The answers of `send_all` and `get_all_states` of device_manager.py.
use fcpp_bridge.Prelude.{
  String, ◌≡◌, refl, none, some, List, [], ◌∷◌, arith, string_key, Option-cases, inl, inr, ap,
}
use fcpp_bridge.Prelude.Dict.{Dict, keys}
use fcpp_bridge.Ipc.Exec.{Result, ok, err, Exec}
use fcpp_bridge.Ipc.Wire.{SwarmSnapshot, Command, Reply}
use fcpp_bridge.Ipc.Outside.{Outside}
use fcpp_bridge.Ipc.Backend.{send_command}
use fcpp_bridge.Ipc.Manager.{
  Device, DeviceManager, device_names, backend_of, Report, not_connected, to_report, report_each,
  send_to, state_of, send_all, get_all_states,
}

-- The names that a report says are not connected, and the names of the devices without a backend.
abbrev pub silent : {A : Type 0} → Dict String (Report A) → List String
silent [] = []
silent ((name, not_connected) ∷ rs) = name ∷ silent rs
silent ((name, _) ∷ rs) = silent rs

abbrev pub offline : Dict String Device → List String
offline [] = []
offline ((name, d) ∷ ds) = elim (backend_of d) [ none ↦ name ∷ offline ds | some b ↦ offline ds ]

silent-to_report :
    {A : Type 0} (name : String) (r : Result A) (rs : Dict String (Report A))
    → silent ((name, to_report r) ∷ rs) ≡ silent rs
silent-to_report name (ok a) rs = refl
silent-to_report name (err e) rs = refl

module _ {W : Type 0} ⦃o : Outside W⦄ where
  report_each-keys :
      {A : Type 0} (ask : Exec (Device × W) A) (ds : Dict String Device) (w : W)
      → keys (report_each ask ds w).0 ≡ keys ds
  unfolding report_each
  report_each-keys ask [] w = refl
  report_each-keys ask ((name, d) ∷ ds) w = elim (Option-cases (backend_of d)) [
    | inl e ↦ ground (arith, e, report_each-keys ask ds w)
    | inr (b, e) ↦ ground (arith, e, report_each-keys ask ds (ask (d, w)).1.1)
  ]

  report_each-offline :
      {A : Type 0} (ask : Exec (Device × W) A) (ds : Dict String Device) (w : W)
      → silent (report_each ask ds w).0 ≡ offline ds
  unfolding report_each
  report_each-offline ask [] w = refl
  report_each-offline ask ((name, d) ∷ ds) w = elim (Option-cases (backend_of d)) [
    | inl e ↦ ground (arith, e, report_each-offline ask ds w)
    | inr (b, e) ↦ ground (
      arith,
      e,
      report_each-offline ask ds (ask (d, w)).1.1,
      silent-to_report name (ask (d, w)).0 (report_each ask ds (ask (d, w)).1.1).0,
    )
  ]

  send_keeps :
      (cmd : Command) (ds : Dict String Device) (w : W) → (report_each (send_to cmd) ds w).1.0 ≡ ds
  unfolding report_each
  send_keeps cmd [] w = refl
  send_keeps cmd ((name, d) ∷ ds) w = elim (Option-cases (backend_of d)) [
    | inl e ↦ ground (arith, e, send_keeps cmd ds w)
    | inr (b, e) ↦ ground (arith, e, send_keeps cmd ds (send_command b cmd w).1)
  ]

  -- `send_all` never raises and leaves the manager as it is. Its answer has the names of the fleet in
  -- their order, and "not connected" for exactly those devices that have no backend.
  pub send_all_reports :
      (cmd : Command) (m : DeviceManager) (w : W)
      → let (r, (m', w')) = send_all cmd (m, w) in
        (rs : Dict String (Report Reply)) × (r ≡ ok rs)
        × (keys rs ≡ device_names m)
        × (silent rs ≡ offline m.devices)
        × (m' ≡ m)
  unfolding send_all
  send_all_reports cmd m w = (
    (report_each (send_to cmd) m.devices w).0,
    refl,
    report_each-keys (send_to cmd) m.devices w,
    report_each-offline (send_to cmd) m.devices w,
    ap (λ ds. record m { devices = ds }) (send_keeps cmd m.devices w),
  )

  states_keep : (ds : Dict String Device) (w : W) → keys (report_each state_of ds w).1.0 ≡ keys ds
  unfolding report_each
  states_keep [] w = refl
  states_keep ((name, d) ∷ ds) w = elim (Option-cases (backend_of d)) [
    | inl e ↦ ground (arith, e, states_keep ds w)
    | inr (b, e) ↦ ground (arith, e, states_keep ds (state_of (d, w)).1.1)
  ]

  -- `get_all_states` never raises and keeps the names. Its answer has the names of the fleet in their
  -- order, and "not connected" for exactly those devices that have no backend.
  pub get_all_states_reports :
      (m : DeviceManager) (w : W)
      → let (r, (m', w')) = get_all_states (m, w) in
        (rs : Dict String (Report SwarmSnapshot)) × (r ≡ ok rs)
        × (keys rs ≡ device_names m)
        × (silent rs ≡ offline m.devices)
        × (device_names m' ≡ device_names m)
  unfolding get_all_states
  get_all_states_reports m w = (
    (report_each state_of m.devices w).0,
    refl,
    report_each-keys state_of m.devices w,
    report_each-offline state_of m.devices w,
    states_keep m.devices w,
  )
