-- ===== src/Metrics/Examples.antt =====
-- The history and the collector in the world of the examples, with the node id as the number.
use fcpp_bridge.Prelude.{ℕ, ◌≡◌, refl, some, List, [], ◌∷◌}
use fcpp_bridge.Ipc.Exec.{Result, ok, err, runtime_error}
use fcpp_bridge.Ipc.Wire.{NodeState, SwarmSnapshot}
use fcpp_bridge.Ipc.Examples.{tick, snapshot, world}
use fcpp_bridge.Metrics.{
  keep_last, drop, new_history, add_snapshot, MetricsCollector, record_snapshot, extract_all,
}
use fcpp_bridge.Metrics.History.{add_in_turn, snapshots_of, add_in_turn_window}
use fcpp_bridge.Metrics.Collection.{IsAligned, record_snapshot-IsAligned}

abbrev empty : SwarmSnapshot
empty = record { round_number = 2; time = 9; nodes = [] }

abbrev items : List (ℕ × SwarmSnapshot)
items = (3, snapshot) ∷ (5, empty) ∷ (8, snapshot) ∷ []

abbrev id_of : NodeState → Result ℕ
id_of n = ok n.node_id

abbrev broken : NodeState → Result ℕ
broken n = err runtime_error

abbrev collector : MetricsCollector ℕ
collector = record {
  history = record {
    max_size = some 2;
    snapshots = empty ∷ [];
    wall_clocks = 3 ∷ [];
    start_wall = some 3;
  };
  callbacks = 20 ∷ [];
  points_max = some 2;
  points =
      record { round_number = 2; sim_time = 9; wall_clock = 3; node_count = 0; numeric_values = [] }
      ∷ [];
}

collector-IsAligned : IsAligned collector
collector-IsAligned = record { same_bound = refl; same_length = refl }

add_in_turn_window_example :
    let h = add_in_turn items (new_history (some 2)) in
    (h.snapshots ≡ keep_last (some 2) (snapshots_of items)) × (h.wall_clocks ≡ 5 ∷ 8 ∷ [])
unfolding drop
add_in_turn_window_example = add_in_turn_window (some 2) items

record_snapshot-IsAligned_example :
    let d = (record_snapshot id_of snapshot (collector, tick 7)).1.0 in
    IsAligned d × (d.history ≡ add_snapshot 7 snapshot collector.history)
unfolding extract_all
record_snapshot-IsAligned_example =
    record_snapshot-IsAligned id_of snapshot collector (tick 7) {vs = 4 ∷ 5 ∷ []}
      collector-IsAligned refl
