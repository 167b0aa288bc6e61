-- ===== src/Ipc/Manager/Fleet.antt =====
-- The methods on every device: `start_all`, `connect_all`, `step_all`, `close_all`.
use fcpp_bridge.Prelude.{
  String, ◌≡◌, refl, [], ◌∷◌, arith, string_key, Option-cases, inl, inr, ap, subst, none, some,
}
use fcpp_bridge.Prelude.Dict.{Dict, keys}
use fcpp_bridge.Ipc.Exec.{Exc, Result, ok, err, Exec, Result-cases}
use fcpp_bridge.Ipc.Outside.{Outside}
use fcpp_bridge.Ipc.Swarm
use fcpp_bridge.Ipc.Swarm.{SwarmProcess, step_round}
use fcpp_bridge.Ipc.Physical.{PhysicalNode}
use fcpp_bridge.Ipc.Manager.{
  Device, simulation, physical, DeviceManager, device_names, on_all, fleet, guarded, start_each,
  step_each, step_device, start_device, close_device, start_all, step_all, close_all,
}

-- The physical devices of a fleet by name, and the simulations.
abbrev pub physicals : Dict String Device → Dict String PhysicalNode
physicals [] = []
physicals ((name, simulation s) ∷ ds) = physicals ds
physicals ((name, physical p) ∷ ds) = (name, p) ∷ physicals ds

abbrev pub simulations : Dict String Device → Dict String SwarmProcess
simulations [] = []
simulations ((name, simulation s) ∷ ds) = (name, s) ∷ simulations ds
simulations ((name, physical p) ∷ ds) = simulations ds

-- A fleet method that visits every device in order, whatever the earlier ones did.
abbrev pub visit_each :
    {W : Type 0}
    → (String → Exec (Device × W) (Unit {0}))
    → Dict String Device
    → W
    → Dict String Device × W
visit_each body [] w = ([], w)
visit_each body ((name, d) ∷ ds) w =
    let (d', w') = (body name (d, w)).1 in
    let (ds', w'') = visit_each body ds w' in ((name, d') ∷ ds', w'')

-- What a step of one device is to do to it and to the world.
module _ {W : Type 0} ⦃o : Outside W⦄ where
  -- A round that failed is sent to the output channel, after what it wrote.
  abbrev pub after_round : String → Result (Unit {0}) × (SwarmProcess × W) → Device × W
  after_round name (ok u, (s, w)) = (simulation s, w)
  after_round name (err e, (s, w)) = (simulation s, (o.emit "step_all" name e w).1)

  unfoldable pub stepped : String → Device → W → Device × W
  stepped name (physical p) w = (physical p, w)
  stepped name (simulation s) w = elim s.node.backend [
    | none ↦ (simulation s, w)
    | some b ↦ after_round name (step_round (s, w))
  ]

  unfoldable pub all_stepped : Dict String Device → W → Dict String Device × W
  all_stepped [] w = ([], w)
  all_stepped ((name, d) ∷ ds) w =
      let (d', w') = stepped name d w in
      let (ds', w'') = all_stepped ds w' in ((name, d') ∷ ds', w'')

module _ {W : Type 0} ⦃o : Outside W⦄ where
  pub on_all-keys :
      (body : String → Exec (Device × W) (Unit {0})) (ds : Dict String Device) (w : W)
      → keys (on_all body ds w).1.0 ≡ keys ds
  unfolding on_all
  on_all-keys body [] w = refl
  on_all-keys body ((name, d) ∷ ds) w = ground (arith, on_all-keys body ds (body name (d, w)).1.1)

  on_all-visits :
      (body : String → Exec (Device × W) (Unit {0}))
      → ((name : String) (d : Device) (w : W) → (body name (d, w)).0 ≡ ok tt)
      → (ds : Dict String Device) (w : W) → on_all body ds w ≡ (ok tt, visit_each body ds w)
  unfolding on_all
  on_all-visits body quiet [] w = refl
  on_all-visits body quiet ((name, d) ∷ ds) w =
      ground (arith, quiet name d w, on_all-visits body quiet ds (body name (d, w)).1.1)

  guarded_quiet :
      (event : String) (m : Exec (Device × W) (Unit {0})) (name : String) (d : Device) (w : W)
      → ((e : Exc) (v : W) → (o.emit event name e v).0 ≡ ok tt)
      → (guarded event m name (d, w)).0 ≡ ok tt
  guarded_quiet event m name d w quiet = elim (Result-cases (m (d, w)).0) [
    | inl (a, h) ↦ ground (arith, h)
    | inr (e, h) ↦ ground (arith, h, quiet e (m (d, w)).1.1)
  ]

  fleet_visits :
      (body : String → Exec (Device × W) (Unit {0}))
      → ((name : String) (d : Device) (w : W) → (body name (d, w)).0 ≡ ok tt)
      → (m : DeviceManager) (w : W)
      → let (ds, v) = visit_each body m.devices w in
        fleet body (m, w) ≡ (ok tt, (record m { devices = ds }, v))
  fleet_visits body quiet m w =
      ap (λ x. (x.0, (record m { devices = x.1.0 }, x.1.1))) (on_all-visits body quiet m.devices w)

  start_quiet :
      (name : String) (d : Device) (w : W)
      → ((e : Exc) (v : W) → (o.emit "start_all" name e v).0 ≡ ok tt)
      → (start_each name (d, w)).0 ≡ ok tt
  unfolding start_each
  start_quiet name (physical p) w quiet = refl
  start_quiet name (simulation s) w quiet =
      guarded_quiet "start_all" start_device name (simulation s) w quiet

  step_quiet :
      (name : String) (d : Device) (w : W)
      → ((e : Exc) (v : W) → (o.emit "step_all" name e v).0 ≡ ok tt)
      → (step_each name (d, w)).0 ≡ ok tt
  unfolding step_each
  step_quiet name (physical p) w quiet = refl
  step_quiet name (simulation s) w quiet = elim (Option-cases s.node.backend) [
    | inl e ↦ ground (arith, e)
    | inr (b, e) ↦
        ground (arith, e, guarded_quiet "step_all" (step_device s) name (simulation s) w quiet)
  ]

  -- With an output channel that does not raise, `start_all` returns and visits every device in the
  -- order of the dict, also after failures: a simulation is started or its failure is sent to the
  -- channel, a physical device is passed over.
  pub start_all_visits :
      (m : DeviceManager) (w : W)
      → ((name : String) (e : Exc) (v : W) → (o.emit "start_all" name e v).0 ≡ ok tt)
      → let (ds, v) = visit_each start_each m.devices w in
        start_all (m, w) ≡ (ok tt, (record m { devices = ds }, v))
  unfolding start_all
  start_all_visits m w quiet =
      fleet_visits start_each (λ name d v. start_quiet name d v (quiet name)) m w

  round_stepped :
      (name : String) (s : SwarmProcess) (w : W)
      → (guarded "step_all" (step_device s) name (simulation s, w)).1
        ≡ after_round name (step_round (s, w))
  round_stepped name s w = elim (Result-cases (step_round (s, w)).0) [
    | inl (a, h) ↦ ground (arith, h)
    | inr (e, h) ↦ ground (arith, h)
  ]

  each_stepped : (name : String) (d : Device) (w : W) → (step_each name (d, w)).1 ≡ stepped name d w
  unfolding step_each stepped
  each_stepped name (physical p) w = refl
  each_stepped name (simulation s) w = elim (Option-cases s.node.backend) [
    | inl e ↦ ground (arith, e)
    | inr (b, e) ↦ ground (arith, e, round_stepped name s w)
  ]

  visit_each-stepped :
      (ds : Dict String Device) (w : W) → visit_each step_each ds w ≡ all_stepped ds w
  unfolding all_stepped
  visit_each-stepped [] w = refl
  visit_each-stepped ((name, d) ∷ ds) w =
      let (d', w') = stepped name d w in
      ground (arith, each_stepped name d w, visit_each-stepped ds w')

  -- With an output channel that does not raise, `step_all` returns, and has gone through the devices
  -- in the order of the dict, whatever happened to the earlier ones: a simulation with a backend
  -- has made a round, and if that raised, the exception was sent to the channel under its name; a
  -- simulation without a backend and a physical device are as they were.
  pub step_all_visits :
      (m : DeviceManager) (w : W)
      → ((name : String) (e : Exc) (v : W) → (o.emit "step_all" name e v).0 ≡ ok tt)
      → let (ds, v) = all_stepped m.devices w in
        step_all (m, w) ≡ (ok tt, (record m { devices = ds }, v))
  unfolding step_all
  step_all_visits m w quiet =
      let visited = fleet_visits step_each (λ name d v. step_quiet name d v (quiet name)) m w in
      subst (λ x. fleet step_each (m, w) ≡ (ok tt, (record m { devices = x.0 }, x.1)))
        (visit_each-stepped m.devices w) visited

  -- With an output channel that does not raise, `close_all` returns and closes every device in the
  -- order of the dict, also after failures.
  pub close_all_visits :
      (m : DeviceManager) (w : W)
      → ((name : String) (e : Exc) (v : W) → (o.emit "close_all" name e v).0 ≡ ok tt)
      → let (ds, v) = visit_each (guarded "close_all" close_device) m.devices w in
        close_all (m, w) ≡ (ok tt, (record m { devices = ds }, v))
  unfolding close_all
  close_all_visits m w quiet =
      fleet_visits (guarded "close_all" close_device)
        (λ name d v. guarded_quiet "close_all" close_device name d v (quiet name)) m w

  on_all-physicals :
      (body : String → Exec (Device × W) (Unit {0}))
      → ((name : String) (p : PhysicalNode) (w : W)
          → body name (physical p, w) ≡ (ok tt, (physical p, w)))
      → ((name : String) (s : SwarmProcess) (w : W)
          → (t : SwarmProcess) × ((body name (simulation s, w)).1.0 ≡ simulation t))
      → (ds : Dict String Device) (w : W) → physicals (on_all body ds w).1.0 ≡ physicals ds
  unfolding on_all
  on_all-physicals body skip stay [] w = refl
  on_all-physicals body skip stay ((name, physical p) ∷ ds) w =
      ground (arith, skip name p w, on_all-physicals body skip stay ds w)
  on_all-physicals body skip stay ((name, simulation s) ∷ ds) w = ground (
    arith,
    (stay name s w).1,
    on_all-physicals body skip stay ds (body name (simulation s, w)).1.1,
  )

  start_stays :
      (name : String) (s : SwarmProcess) (w : W)
      → (t : SwarmProcess) × ((start_each name (simulation s, w)).1.0 ≡ simulation t)
  unfolding start_each start_device
  start_stays name s w = ((Swarm.start (s, w)).1.0, ground arith)

  step_stays :
      (name : String) (s : SwarmProcess) (w : W)
      → (t : SwarmProcess) × ((step_each name (simulation s, w)).1.0 ≡ simulation t)
  unfolding step_each
  step_stays name s w = elim (Option-cases s.node.backend) [
    | inl e ↦ (s, ground (arith, e))
    | inr (b, e) ↦ ((step_round (s, w)).1.0, ground (arith, e))
  ]

  -- `start_all` and `step_all` leave every physical device as it is and keep all names in place,
  -- whether they return or raise.
  pub physicals_untouched :
      (m : DeviceManager) (w : W)
      → (physicals (start_all (m, w)).1.0.devices ≡ physicals m.devices)
        × (physicals (step_all (m, w)).1.0.devices ≡ physicals m.devices)
        × (device_names (start_all (m, w)).1.0 ≡ device_names m)
        × (device_names (step_all (m, w)).1.0 ≡ device_names m)
  unfolding start_all step_all
  physicals_untouched m w = (
    on_all-physicals start_each (λ n p v. unfold start_each in refl) start_stays m.devices w,
    on_all-physicals step_each (λ n p v. unfold step_each in refl) step_stays m.devices w,
    on_all-keys start_each m.devices w,
    on_all-keys step_each m.devices w,
  )
