-- ===== src/Ipc/Wire.antt =====
-- What goes over the wire: node_state.py, swarm_snapshot.py, the commands and the replies.
-- Times are counted in clock ticks.
pub mod Snapshots
use fcpp_bridge.Prelude.{
  ℕ, String, List, [], ◌∷◌, Option, none, some, string_key, ◌==◌, if◌then◌else◌,
}
use fcpp_bridge.Prelude.Dict.{Dict, lookup}
use fcpp_bridge.Ipc.Exec.{Result, ok, err, key_error, type_error, attribute_error}

-- A JSON value: a text, or the source text of anything else.
pub data Json : Type 0 where
  text : String → Json
  raw : String → Json

-- The decoded answer: an object; an object with a list of objects under "nodes", which stands
-- beside the other entries; or a value that has no `get`. A list with anything but objects in it
-- is `raw`, and an empty object under "nodes" counts as an empty list.
pub data Reply : Type 0 where
  object : Dict String Json → Reply
  listing : Dict String Json → List (Dict String Json) → Reply
  scalar : Json → Reply

pub record NodeState : Type 0 where
  pub node_id : ℕ
  pub state_data : Option Json
  pub timestamp : ℕ

pub record SwarmSnapshot : Type 0 where
  pub round_number : ℕ
  pub time : ℕ
  pub nodes : List NodeState

-- An entry of the command `add_nodes`; a field that is `none` is not in the dict.
pub record NodeEntry : Type 0 where
  pub id : ℕ
  pub position : Option (List ℕ)
  pub area : Option (List ℕ)
  pub comm_range : Option ℕ
  pub max_speed : Option ℕ
  pub propulsion : Option ℕ

-- A base URL: as the caller wrote it, or `http://{host}:{port}` by its parts.
pub data Url : Type 0 where
  literal : String → Url
  host_port : String → ℕ → Url

-- The dicts that the package sends; `custom` is one that a caller of `send_all` wrote.
pub data Command : Type 0 where
  step get_state : Command
  ping : ℕ → ℕ → Command
  add_nodes : List NodeEntry → Command
  add_node : NodeEntry → Command
  remove_node : ℕ → Command
  custom : String → Command

-- resp.get(key)
unfoldable pub get_field : Reply → String → Result (Option Json)
unfolding lookup
get_field (object d) key = ok (lookup key d)
get_field (listing d nodes) key = ok (lookup key d)
get_field (scalar v) key = err attribute_error

-- The numbers of a snapshot, where `number_of` says which number a JSON value stands for.
module _ (number_of : Json → ℕ) where
  -- entry.get(key, 0)
  abbrev pub number_or_zero : Option Json → ℕ
  number_or_zero none = 0
  number_or_zero (some v) = number_of v

  unfoldable pub parse_node : Dict String Json → Result NodeState
  unfolding lookup
  parse_node n = elim (lookup "id" n) [
    | none ↦ err key_error
    | some i ↦ ok (record {
      node_id = number_of i;
      state_data = lookup "state" n;
      timestamp = number_or_zero (lookup "timestamp" n);
    })
  ]

  abbrev and_node : Result NodeState → Result (List NodeState) → Result (List NodeState)
  and_node (ok n) (ok ns) = ok (n ∷ ns)
  and_node (ok n) (err e) = err e
  and_node (err e) rest = err e

  unfoldable pub parse_nodes : List (Dict String Json) → Result (List NodeState)
  unfolding parse_node
  parse_nodes [] = ok []
  parse_nodes (n ∷ ns) = and_node (parse_node n) (parse_nodes ns)

  abbrev with_nodes : Dict String Json → Result (List NodeState) → Result SwarmSnapshot
  with_nodes d (err e) = err e
  with_nodes d (ok ns) = ok (record {
    round_number = number_or_zero (lookup "round" d);
    time = number_or_zero (lookup "time" d);
    nodes = ns;
  })

  -- What iterating over an entry `nodes` that is no list of objects comes to: a text of no
  -- characters has no nodes, and everything else fails at the first of them or before it.
  abbrev no_nodes : Option Json → Result (List NodeState)
  no_nodes none = ok []
  no_nodes (some (text s)) = if s == "" then ok [] else err type_error
  no_nodes (some (raw s)) = err type_error

  -- _parse_snapshot(response)
  unfoldable pub parse_snapshot : Reply → Result SwarmSnapshot
  unfolding parse_nodes lookup
  parse_snapshot (object d) = with_nodes d (no_nodes (lookup "nodes" d))
  parse_snapshot (listing d nodes) = with_nodes d (parse_nodes nodes)
  parse_snapshot (scalar v) = err attribute_error
