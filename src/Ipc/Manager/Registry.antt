-- ===== src/Ipc/Manager/Registry.antt =====
-- The table of devices: `add_simulation`, `add_physical`, `remove` and the methods on one name.
use fcpp_bridge.Prelude.{
  ℕ, String, ◌≡◌, false, Option, none, some, [], ◌∷◌, ◌++◌, arith, string_key, ◌==◌, if◌then◌else◌,
  Option-cases, inl, inr,
}
use fcpp_bridge.Prelude.Dict.{
  lookup, has, insert, IsDict, lookup-insert, has-insert, insert-IsDict, has-remove, lookup-remove,
  remove-IsDict, keys-insert, lookup-none_iff,
}
use fcpp_bridge.Ipc.Exec.{Result, ok, err, Exec, value_error, key_error, type_error}
use fcpp_bridge.Ipc.Outside.{Outside}
use fcpp_bridge.Ipc.Liveness.{Strategy}
use fcpp_bridge.Ipc.Physical.{PhysicalNode, new_physical}
use fcpp_bridge.Ipc.Swarm.{new_swarm}
use fcpp_bridge.Ipc.Manager.{
  Device, simulation, physical, DeviceManager, device_names, register, close_device, start_device,
  connect_device, add_simulation, add_physical, with_device, remove_device, start, connect,
}

-- What registering the device `d` does: a name that is taken is refused with a ValueError and nothing
-- changes; a new name comes last and finds `d`, and every other name finds what it found before.
abbrev pub Added :
    {W : Type 0}
    → String
    → Device
    → DeviceManager × W
    → Result (Unit {0}) × (DeviceManager × W)
    → Type 0
Added name d (m, w) (r, (m', w')) =
    (r ≡ (if has name m.devices then err value_error else ok tt))
    × (device_names m'
        ≡ (if has name m.devices then device_names m else device_names m ++ name ∷ []))
    × ((j : String)
        → lookup j m'.devices ≡ (
            if has name m.devices
            then lookup j m.devices
            else if name == j
            then some d
            else lookup j m.devices))

register-Added :
    {W : Type 0} (name : String) (d : Device) (m : DeviceManager) (w : W)
    → Added name d (m, w) (register name d (m, w))
unfolding register
register-Added name d m w = (
  ground arith,
  ground (arith, keys-insert name d m.devices),
  λ j. ground (arith, lookup-insert name j d m.devices),
)

register-IsDict :
    {W : Type 0} (name : String) (d : Device) (m : DeviceManager) (w : W)
    → IsDict m.devices
    → IsDict (register name d (m, w)).1.0.devices
unfolding register
register-IsDict name d m w h = ground (arith, insert-IsDict name d m.devices h)

module _ {W : Type 0} ⦃o : Outside W⦄ where
  -- `add_simulation` refuses a name that is taken with a ValueError and then changes nothing; a new
  -- name comes last, finds the new swarm, and every other name finds what it found before.
  pub add_simulation-Added :
      (name path backend : String) (num_nodes : ℕ) (port : Option ℕ) (strategy : Option Strategy)
      (m : DeviceManager) (w : W)
      → Added name
          (simulation (new_swarm path num_nodes backend port "sequential" strategy))
          (m, w)
          (add_simulation name path num_nodes backend port strategy (m, w))
  unfolding add_simulation
  add_simulation-Added name path backend num_nodes port strategy m w =
      register-Added name (simulation (new_swarm path num_nodes backend port "sequential" strategy))
        m w

  -- `add_physical` refuses a name that is taken with a ValueError and then changes nothing; a new
  -- name comes last, finds the new device, and every other name finds what it found before.
  pub add_physical-Added :
      (name host backend : String) (port interval : ℕ) (strategy : Option Strategy)
      (m : DeviceManager) (w : W)
      → Added name
          (physical (new_physical host port backend interval "sequential" strategy))
          (m, w)
          (add_physical name host port backend interval strategy (m, w))
  unfolding add_physical
  add_physical-Added name host backend port interval strategy m w =
      register-Added name (physical (new_physical host port backend interval "sequential" strategy))
        m w

  -- On a dict of devices, `remove` answers a missing name with a KeyError, and a name that is there with what closing its
  -- device answers. The name is gone exactly if that returned; no other name comes or goes.
  pub remove_device_effect :
      (name j : String) (m : DeviceManager) (w : W)
      → IsDict m.devices
      → let (r, (m', w')) = remove_device name (m, w) in
        (r ≡ elim (lookup name m.devices) [
          | none ↦ err key_error
          | some d ↦ (close_device (d, w)).0
        ])
        × (has j m'.devices ≡ elim r [
          | ok u ↦ if name == j then false else has j m.devices
          | err e ↦ has j m.devices
        ])
  unfolding remove_device
  remove_device_effect name j m w h = elim (Option-cases (lookup name m.devices)) [
    | inl e ↦ (ground (arith, e), ground (arith, e))
    | inr (d, e) ↦
        let (r, (d', w')) = close_device (d, w) in
        let hs = has-insert name j d' m.devices in
        let hr = has-remove name j (insert name d' m.devices) (insert-IsDict name d' m.devices h) in
        let there = lookup-none_iff name m.devices in
        (ground (arith, e), ground (arith, e, hs, hr, there, string_key.same_iff name j))
  ]

  -- `remove` leaves the devices under other names as they are, also when closing raises.
  pub remove_device_others :
      (name j : String) (m : DeviceManager) (w : W)
      → IsDict m.devices
      → (name == j) ≡ false
      → lookup j (remove_device name (m, w)).1.0.devices ≡ lookup j m.devices
  unfolding remove_device
  remove_device_others name j m w h f = elim (Option-cases (lookup name m.devices)) [
    | inl e ↦ ground (arith, e)
    | inr (d, e) ↦
        let (r, (d', w')) = close_device (d, w) in
        let hs = lookup-insert name j d' m.devices in
        let hr =
          lookup-remove name j (insert name d' m.devices) (insert-IsDict name d' m.devices h) in
        ground (arith, e, hs, hr)
  ]

  remove_device-IsDict :
      (name : String) (m : DeviceManager) (w : W)
      → IsDict m.devices
      → IsDict (remove_device name (m, w)).1.0.devices
  unfolding remove_device
  remove_device-IsDict name m w h = elim (Option-cases (lookup name m.devices)) [
    | inl e ↦ ground (arith, e)
    | inr (d, e) ↦
        let (r, (d', w')) = close_device (d, w) in
        let hi = insert-IsDict name d' m.devices h in
        ground (arith, e, hi, remove-IsDict name (insert name d' m.devices) hi)
  ]

  with_device-IsDict :
      {A : Type 0} (name : String) (f : Exec (Device × W) A) (m : DeviceManager) (w : W)
      → IsDict m.devices
      → IsDict (with_device name f (m, w)).1.0.devices
  unfolding with_device
  with_device-IsDict name f m w h = elim (Option-cases (lookup name m.devices)) [
    | inl e ↦ ground (arith, e)
    | inr (d, e) ↦ ground (arith, e, insert-IsDict name (f (d, w)).1.0 m.devices h)
  ]

  -- Names stay distinct through the operations on one name, whether they return or raise.
  pub names_stay_distinct :
      (name host backend : String) (port : ℕ) (m : DeviceManager) (w : W)
      → IsDict m.devices
      → IsDict (add_physical name host port backend 5 none (m, w)).1.0.devices
        × IsDict (remove_device name (m, w)).1.0.devices
        × IsDict (start name (m, w)).1.0.devices
        × IsDict (connect name (m, w)).1.0.devices
  unfolding add_physical start connect
  names_stay_distinct name host backend port m w h = (
    register-IsDict name _ m w h,
    remove_device-IsDict name m w h,
    with_device-IsDict name start_device m w h,
    with_device-IsDict name connect_device m w h,
  )

  -- `start` of a physical device is a TypeError, and every name finds what it found before.
  pub start-wrong_class :
      (name j : String) (m : DeviceManager) (w : W) (p : PhysicalNode)
      → lookup name m.devices ≡ some (physical p)
      → ((start name (m, w)).0 ≡ err type_error)
        × (lookup j (start name (m, w)).1.0.devices ≡ lookup j m.devices)
  unfolding start start_device
  start-wrong_class name j m w p e = (
    ground (arith, e),
    ground (arith, e, lookup-insert name j (physical p) m.devices, string_key.same_iff name j),
  )
