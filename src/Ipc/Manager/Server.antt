-- ===== src/Ipc/Manager/Server.antt =====
-- The registration server of device_manager.py, and `__exit__`.
use fcpp_bridge.Prelude.{
  ℕ, zero, suc, String, Bool, true, false, Option, none, some, string_key, ◌==◌, ◌||◌,
  if◌then◌else◌,
}
use fcpp_bridge.Prelude.Dict.{lookup}
use fcpp_bridge.Ipc.Exec.{
  Exc, Result, ok, err, Exec, key_error, type_error, assertion_error, attribute_error, pure, raise,
  lift, ◌>>=◌, ◌>>◌, try◌except◌,
}
use fcpp_bridge.Transpiler.Text.{starts_with}
use fcpp_bridge.Ipc.Wire.{Json, text, raw, Reply, object, listing, scalar}
use fcpp_bridge.Ipc.Outside.{Outside, call, thread_runs, set_if_some, join_if_some}
use fcpp_bridge.Ipc.Manager.{DeviceManager, add_physical, close_all}

-- The answers of `do_POST`: 404, 200, and 400 with the error.
pub data Response : Type 0 where
  not_found accepted : Response
  rejected : Exc → Response

-- data[key]
unfoldable pub item : Reply → String → Result Json
unfolding lookup
item (scalar v) key = err type_error
item (listing d nodes) key = elim (lookup key d) [ none ↦ err key_error | some v ↦ ok v ]
item (object d) key = elim (lookup key d) [ none ↦ err key_error | some v ↦ ok v ]

-- data.get(key, default)
unfoldable pub item_or : Reply → String → Json → Result Json
unfolding lookup
item_or (scalar v) key default = err attribute_error
item_or (listing d nodes) key default = elim (lookup key d) [ none ↦ ok default | some v ↦ ok v ]
item_or (object d) key default = elim (lookup key d) [ none ↦ ok default | some v ↦ ok v ]

-- A name or a host that is not a text stands for itself by its source text.
abbrev pub as_text : Json → String
as_text (text s) = s
as_text (raw s) = s

-- A name becomes a key of a dict: a list or an object cannot be hashed.
unfoldable pub as_key : Json → Result String
unfolding starts_with
as_key (text s) = ok s
as_key (raw s) = if starts_with s "[" || starts_with s "{" then err type_error else ok s

-- The fields of a registration.
pub record Posted : Type 0 where
  pub name : String
  pub host : String
  pub port : ℕ
  pub backend : String

module _ {W : Type 0} ⦃o : Outside W⦄ where
  unfoldable pub accept_registrations : ℕ → Option ℕ → Exec (DeviceManager × W) (Unit {0})
  accept_registrations port on_registered (m, w) =
      if thread_runs m.registration_thread w
      then (ok tt, (m, w))
      else (let (e, w₁) = o.new_event w in
          let (t, w₂) = o.start_thread w₁ in
          (
            ok tt,
            (
              record m {
                registration_thread = some t;
                registration_stop_event = some e;
                registration_port = some port;
                registration_callback = on_registered;
              },
              w₂,
            ),
          ))

  unfoldable pub stop_accepting_registrations : Exec (DeviceManager × W) (Unit {0})
  stop_accepting_registrations (m, w) = (
    ok tt,
    (
      record m {
        registration_thread = none;
        registration_stop_event = none;
        registration_port = none;
        registration_callback = none;
      },
      join_if_some m.registration_thread (set_if_some m.registration_stop_event w),
    ),
  )

  abbrev announce : String → Exec (DeviceManager × W) (Unit {0})
  announce name (m, w) = elim m.registration_callback [
    | none ↦ (ok tt, (m, w))
    | some cb ↦ call (o.registered cb name) (m, w)
  ]

  -- what `do_POST` reads from the body
  unfoldable pub read_posted : String → Exec (DeviceManager × W) Posted
  unfolding item item_or as_key
  read_posted body = do
    data_ ← lift (o.json_loads body)
    name ← lift (item data_ "name")
    host ← lift (item data_ "host")
    port_value ← lift (item data_ "port")
    port ← lift (o.to_int port_value)
    backend ← lift (item_or data_ "backend" (text "http"))
    key ← lift (as_key name)
    pure (record { name = key; host = as_text host; port = port; backend = as_text backend })

  -- the body of the `try` of `do_POST`; 5 is the default of the interval
  unfoldable pub register_posted : String → Exec (DeviceManager × W) Response
  unfolding read_posted add_physical
  register_posted body = do
    q ← read_posted body
    add_physical q.name q.host q.port q.backend 5 none
    announce q.name
    pure accepted

  unfoldable pub do_post : String → String → Exec (DeviceManager × W) Response
  unfolding register_posted
  do_post path body =
      if path == "/register"
      then (try register_posted body except λ e. pure (rejected e))
      else pure not_found

  -- server.handle_request()
  abbrev pub handle_request : Exec (DeviceManager × W) (Unit {0})
  handle_request (m, w) =
      let (request, w') = o.next_request w in
      elim request [
        | none ↦ (ok tt, (m, w'))
        | some (path, body) ↦ (do do_post path body; pure tt) (m, w')
      ]

  -- The `while` of `_registration_server_loop`: `true` when it has ended, `false` when it is still running
  -- after `rounds` rounds.
  unfoldable pub serve : ℕ → Exec (DeviceManager × W) Bool
  unfolding do_post
  serve zero (m, w) = (ok false, (m, w))
  serve (suc rounds) (m, w) =
      let again : Exec (DeviceManager × W) Bool = (do handle_request; serve rounds) in
      elim m.registration_stop_event [
        | none ↦ (err attribute_error, (m, w))
        | some e ↦ if o.is_set e w then (do call o.server_close; pure true) (m, w) else again (m, w)
      ]

  unfoldable pub registration_server_loop : ℕ → Exec (DeviceManager × W) Bool
  unfolding serve
  registration_server_loop rounds (m, w) =
      (do
        call (o.http_server m.registration_port)
        elim m.registration_stop_event [ none ↦ raise assertion_error | some e ↦ serve rounds ])
        (m, w)

  -- __exit__
  unfoldable pub exit : Exec (DeviceManager × W) (Unit {0})
  unfolding stop_accepting_registrations close_all
  exit = do stop_accepting_registrations; close_all
