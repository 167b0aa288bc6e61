-- ===== src/Ipc/Manager/Registration.antt =====
-- The registration server: `do_POST`, the serving loop, `stop_accepting_registrations`, `__exit__`.
use fcpp_bridge.Prelude.{
  ℕ, zero, suc, String, ◌≡◌, refl, true, false, Option, none, some, arith, string_key, Option-cases,
  inl, inr,
}
use fcpp_bridge.Prelude.Dict.{Dict, lookup, has, lookup-insert, lookup-none_iff}
use fcpp_bridge.Ipc.Exec.{Exc, Result, ok, err, value_error, Result-cases, Keeps}
use fcpp_bridge.Ipc.Wire.{Json, text, Reply, object}
use fcpp_bridge.Ipc.Outside.{Outside, thread_runs, set_if_some, join_if_some}
use fcpp_bridge.Ipc.Physical.{new_physical}
use fcpp_bridge.Ipc.Manager.Fleet.{on_all-keys}
use fcpp_bridge.Ipc.Manager.{
  Device, physical, DeviceManager, device_names, set_device, register, add_physical, guarded,
  close_device, close_all,
}
use fcpp_bridge.Ipc.Manager.Server.{
  Posted, item, item_or, as_key, read_posted, accepted, rejected, register_posted, do_post,
  handle_request, accept_registrations, stop_accepting_registrations, exit, serve,
}

-- The device that `add_physical` makes of it.
abbrev pub posted_device : Posted → Device
posted_device q = physical (new_physical q.host q.port q.backend 5 "sequential" none)

-- The body is a JSON object with the fields of `q`, as `json.loads` and `int` read them.
pub record Carries (loads : String → Result Reply) (to_int : Json → Result ℕ) (body : String)
    (q : Posted) : Type 0 where
  pub port_json : Json
  pub fields : Dict String Json
  pub decoded : loads body ≡ ok (object fields)
  pub name_there : lookup "name" fields ≡ some (text q.name)
  pub host_there : lookup "host" fields ≡ some (text q.host)
  pub port_there : lookup "port" fields ≡ some port_json
  pub port_read : to_int port_json ≡ ok q.port
  pub backend_there : lookup "backend" fields ≡ some (text q.backend)

module _ {W : Type 0} ⦃o : Outside W⦄ where
  -- Without a callback, a well-formed registration under a new name is answered with 200 and adds the
  -- device.
  pub do_post_accepts :
      (body : String) (q : Posted) (m : DeviceManager) (w : W)
      → Carries o.json_loads o.to_int body q
      → has q.name m.devices ≡ false
      → m.registration_callback ≡ none
      → do_post "/register" body (m, w) ≡ (ok accepted, (set_device q.name (posted_device q) m, w))
  unfolding do_post read_posted add_physical register item item_or as_key
  do_post_accepts body q m w c new none_set = ground arith

  -- For a well-formed registration under a name that is taken the answer is 400 with a ValueError, and nothing is added or called.
  pub do_post_duplicate :
      (body : String) (q : Posted) (m : DeviceManager) (w : W)
      → Carries o.json_loads o.to_int body q
      → has q.name m.devices ≡ true
      → do_post "/register" body (m, w) ≡ (ok (rejected value_error), (m, w))
  unfolding do_post read_posted add_physical register item item_or as_key
  do_post_duplicate body q m w c taken = ground arith

  -- When the callback raises on a well-formed registration under a new name, the answer is 400, and
  -- the device is registered all the same.
  pub do_post_callback_raises :
      (body : String) (q : Posted) (m : DeviceManager) (w : W) (cb : ℕ) {e : Exc}
      → Carries o.json_loads o.to_int body q
      → has q.name m.devices ≡ false
      → m.registration_callback ≡ some cb
      → (o.registered cb q.name w).0 ≡ err e
      → let (r, (m', w')) = do_post "/register" body (m, w) in
        (r ≡ ok (rejected e)) × (m' ≡ set_device q.name (posted_device q) m)
  unfolding do_post read_posted add_physical register item item_or as_key
  do_post_callback_raises body q m w cb c new set raises = ground arith

  -- The name finds this device.
  abbrev Finds : String → Device → DeviceManager × W → Type 0
  Finds name d (m, w) = lookup name m.devices ≡ some d

  add_physical-Finds :
      (name : String) (d : Device) (new host backend : String) (port : ℕ)
      → Keeps (Finds name d) (add_physical new host port backend 5 none)
  unfolding add_physical register
  add_physical-Finds name d new host backend port (m, w) h =
      let device = physical (new_physical host port backend 5 "sequential" none) in
      ground (
        arith,
        h,
        lookup-insert new name device m.devices,
        lookup-none_iff new m.devices,
        string_key.same_iff new name,
      )

  read_posted_reads : (body : String) (s : DeviceManager × W) → (read_posted body s).1 ≡ s
  unfolding read_posted item item_or as_key
  read_posted_reads body s = ground arith

  register_posted-Finds :
      (body name : String) (d : Device) → Keeps (Finds name d) (register_posted body)
  unfolding register_posted
  register_posted-Finds body name d s h = elim (Result-cases (read_posted body s).0) [
    | inl (q, e) ↦ ground (
      arith,
      h,
      e,
      read_posted_reads body s,
      add_physical-Finds name d q.name q.host q.backend q.port s h,
    )
    | inr (x, e) ↦ ground (arith, h, e, read_posted_reads body s)
  ]

  do_post-Finds : (path body name : String) (d : Device) → Keeps (Finds name d) (do_post path body)
  unfolding do_post
  do_post-Finds path body name d s h = ground (arith, h, register_posted-Finds body name d s h)

  handle_request-Finds : (name : String) (d : Device) → Keeps (Finds name d) handle_request
  handle_request-Finds name d (m, w) h = elim (Option-cases (o.next_request w).0) [
    | inl e ↦ ground (arith, h, e)
    | inr ((path, body), e) ↦
        ground (arith, h, e, do_post-Finds path body name d (m, (o.next_request w).1) h)
  ]

  serve-Finds : (rounds : ℕ) (name : String) (d : Device) → Keeps (Finds name d) (serve rounds)
  unfolding serve
  serve-Finds zero name d s h = h
  serve-Finds (suc rounds) name d (m, w) h =
      let kept = handle_request-Finds name d (m, w) h in
      let rest = serve-Finds rounds name d (handle_request (m, w)).1 kept in
      ground (arith, h, kept, rest)

  -- However many rounds the registration server runs, and whatever it is sent, a name that finds a
  -- device goes on finding the same one.
  pub serve_keeps_devices :
      (rounds : ℕ) (name : String) (d : Device) (m : DeviceManager) (w : W)
      → lookup name m.devices ≡ some d
      → lookup name (serve rounds (m, w)).1.0.devices ≡ some d
  serve_keeps_devices rounds name d m w h = serve-Finds rounds name d (m, w) h

  -- `accept_registrations` leaves a port, a callback, a stop event and a thread behind, and called
  -- again while that thread runs it changes nothing, whatever port and callback it is given.
  pub accept_registrations_again :
      (port port' : ℕ) (cb cb' : Option ℕ) (m : DeviceManager) (w : W)
      → thread_runs m.registration_thread w ≡ false
      → thread_runs
          (accept_registrations port cb (m, w)).1.0.registration_thread
          (accept_registrations port cb (m, w)).1.1
        ≡ true
      → let (r, (m', w')) = accept_registrations port cb (m, w) in
        (m'.registration_port ≡ some port)
        × (m'.registration_callback ≡ cb)
        × (accept_registrations port' cb' (m', w') ≡ (ok tt, (m', w')))
  unfolding accept_registrations
  accept_registrations_again port port' cb cb' m w idle runs = ground (arith, idle, runs)

  -- `__exit__` forgets the registration server before it closes the devices, and keeps their names.
  pub exit_effect :
      (m : DeviceManager) (w : W)
      → let n = (exit (m, w)).1.0 in
        (n.registration_thread ≡ none)
        × (n.registration_stop_event ≡ none)
        × (n.registration_port ≡ none)
        × (n.registration_callback ≡ none)
        × (device_names n ≡ device_names m)
  unfolding exit stop_accepting_registrations close_all
  exit_effect m w =
      let v = join_if_some m.registration_thread (set_if_some m.registration_stop_event w) in
      (refl, refl, refl, refl, on_all-keys (guarded "close_all" close_device) m.devices v)
