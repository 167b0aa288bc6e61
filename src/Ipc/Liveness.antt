-- ===== src/Ipc/Liveness.antt =====
-- liveness_strategy.py: who counts as alive. The three built-in classes are the constructors of
-- `Strategy`; a strategy of the user's own is not modelled.
pub mod Window
pub mod Tracking
pub mod Ping
use fcpp_bridge.Prelude.{
  ℕ, ◌-◌, String, ◌≡◌, Bool, true, false, Option, none, some, List, [], ◌∷◌, map, string_key,
  nat_key, ◌==◌, leb, if◌then◌else◌,
}
use fcpp_bridge.Prelude.Dict.{Dict, keys, insert, remove}
use fcpp_bridge.Prelude.IdSet.{add, discard}
use fcpp_bridge.Ipc.Exec.{Result, ok, err, Exec, pure, lift, ◌>>=◌, try◌except◌}
use fcpp_bridge.Ipc.Wire.{NodeState, SwarmSnapshot, ping, Json, text, raw, Reply, get_field}
use fcpp_bridge.Ipc.Outside.{Outside}
use fcpp_bridge.Ipc.Backend.{Backend, send_command}

-- PassiveHeartbeatStrategy
pub record PassiveHeartbeat : Type 0 where
  pub timeout : ℕ
  pub timestamps : Dict ℕ ℕ

-- ActivePingStrategy; `backend_getter` is the documented `lambda: node.backend`, so the backend is
-- an argument of `check`.
pub record ActivePing : Type 0 where
  pub ping_timeout : ℕ
  pub known_ids : List ℕ

-- AlwaysAliveStrategy
pub record AlwaysAlive : Type 0 where
  pub known_ids : List ℕ

pub data Strategy : Type 0 where
  passive : PassiveHeartbeat → Strategy
  active : ActivePing → Strategy
  always : AlwaysAlive → Strategy

abbrev pub ids_of : List NodeState → List ℕ
ids_of [] = []
ids_of (n ∷ ns) = n.node_id ∷ ids_of ns

-- for node in snapshot.nodes: self._timestamps[node.node_id] = now
unfoldable pub stamp_all : ℕ → List ℕ → Dict ℕ ℕ → Dict ℕ ℕ
stamp_all now [] ts = ts
stamp_all now (i ∷ is) ts = stamp_all now is (insert i now ts)

-- for node in snapshot.nodes: self._known_ids.add(node.node_id)
unfoldable pub add_all : List ℕ → List ℕ → List ℕ
add_all [] s = s
add_all (i ∷ is) s = add_all is (add i s)

-- on_snapshot(snapshot), at the time `now`
unfoldable pub on_snapshot : ℕ → SwarmSnapshot → Strategy → Strategy
on_snapshot now snapshot (passive s) =
    passive (record s { timestamps = stamp_all now (ids_of snapshot.nodes) s.timestamps })
on_snapshot now snapshot (active s) =
    active (record s { known_ids = add_all (ids_of snapshot.nodes) s.known_ids })
on_snapshot now snapshot (always s) =
    always (record { known_ids = add_all (ids_of snapshot.nodes) s.known_ids })

-- discard(node_id)
unfoldable pub forget : ℕ → Strategy → Strategy
forget i (passive s) = passive (record s { timestamps = remove i s.timestamps })
forget i (active s) = active (record s { known_ids = discard i s.known_ids })
forget i (always s) = always (record { known_ids = discard i s.known_ids })

-- {nid: (now - ts) <= t for nid, ts in self._timestamps.items()}
unfoldable pub judge : ℕ → ℕ → Dict ℕ ℕ → Dict ℕ Bool
judge now t [] = []
judge now t ((i, ts) ∷ d) = (i, leb (now - ts) t) ∷ judge now t d

-- {nid: b for nid in ids}
unfoldable pub report : Bool → List ℕ → Dict ℕ Bool
report b [] = []
report b (i ∷ is) = (i, b) ∷ report b is

-- resp.get("status") == "pong"
abbrev pub is_pong : Option Json → Bool
is_pong (some (text s)) = s == "pong"
is_pong (some (raw s)) = false
is_pong none = false

-- The argument of a call, or the default of the object.
abbrev pub or_default : Option ℕ → ℕ → ℕ
or_default (some t) d = t
or_default none d = d

module _ {W : Type 0} ⦃o : Outside W⦄ where
  -- result[nid] = backend.send_command(...).get("status") == "pong"
  abbrev pub read_status : Reply → Exec W Bool
  read_status resp = do status ← lift (get_field resp "status"); pure (is_pong status)

  abbrev pub ask : Backend → ℕ → ℕ → Exec W Bool
  ask backend t nid = do resp ← send_command backend (ping nid t); read_status resp

  -- One round of the loop; `except Exception` turns every failure into "dead".
  unfoldable pub ping_one : Backend → ℕ → ℕ → Exec W Bool
  ping_one backend t nid = try ask backend t nid except λ e. pure false

  unfoldable pub ping_all : Backend → ℕ → List ℕ → Exec W (Dict ℕ Bool)
  ping_all backend t [] = pure []
  ping_all backend t (nid ∷ rest) = do
    alive ← ping_one backend t nid
    others ← ping_all backend t rest
    pure ((nid, alive) ∷ others)

  -- check(timeout=timeout, ping_timeout=ping_timeout)
  unfoldable pub check : Option ℕ → Option ℕ → Option Backend → Strategy → Exec W (Dict ℕ Bool)
  unfolding ping_all judge report
  check timeout ping_timeout backend (passive s) w =
      (ok (judge (o.clock w) (or_default timeout s.timeout) s.timestamps), w)
  check timeout ping_timeout none (active s) w = (ok (report false s.known_ids), w)
  check timeout ping_timeout (some backend) (active s) w =
      ping_all backend (or_default ping_timeout s.ping_timeout) s.known_ids w
  check timeout ping_timeout backend (always s) w = (ok (report true s.known_ids), w)

-- The nodes that a strategy keeps track of.
unfoldable pub tracked : Strategy → List ℕ
tracked (passive s) = keys s.timestamps
tracked (active s) = s.known_ids
tracked (always s) = s.known_ids
