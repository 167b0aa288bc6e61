-- ===== src/Metrics.antt =====
-- metrics/: the bounded history of snapshots and the collector of measures.
pub mod History
pub mod Collection
pub mod Examples
use fcpp_bridge.Prelude.{
  ℕ, zero, suc, ◌-◌, Bool, true, false, not, Option, none, some, List, [], ◌∷◌, ◌++◌, map, length,
  nat_eqb, ltb, if◌then◌else◌,
}
use fcpp_bridge.Ipc.Exec.{
  Exc, Result, ok, err, value_error, type_error, key_error, index_error, Exec, pure, raise, lift,
  continue, ◌>>=◌, ◌>>◌, for_each,
}
use fcpp_bridge.Ipc.Wire.{NodeState, SwarmSnapshot}
use fcpp_bridge.Ipc.Outside.{Outside, call, call_value}

-- A deque with `maxlen`: what does not fit falls off at the left.
unfoldable pub drop {ℓ} : {A : Type ℓ} → ℕ → List A → List A
drop zero xs = xs
drop (suc n) [] = []
drop (suc n) (x ∷ xs) = drop n xs

abbrev pub keep_last {ℓ} : {A : Type ℓ} → Option ℕ → List A → List A
keep_last none xs = xs
keep_last (some n) xs = drop (length xs - n) xs

-- d.append(x)
unfoldable pub append_to {ℓ} : {A : Type ℓ} → Option ℕ → A → List A → List A
append_to max x xs = keep_last max (xs ++ x ∷ [])

pub record StateHistory : Type 0 where
  pub max_size : Option ℕ
  pub snapshots : List SwarmSnapshot
  pub wall_clocks : List ℕ
  pub start_wall : Option ℕ

unfoldable pub new_history : Option ℕ → StateHistory
new_history max = record { max_size = max; snapshots = []; wall_clocks = []; start_wall = none }

abbrev or_now : Option ℕ → ℕ → Option ℕ
or_now (some t) now = some t
or_now none now = some now

-- add(snapshot), at the time `now`
unfoldable pub add_snapshot : ℕ → SwarmSnapshot → StateHistory → StateHistory
add_snapshot now s h = record h {
  snapshots = append_to h.max_size s h.snapshots;
  wall_clocks = append_to h.max_size now h.wall_clocks;
  start_wall = or_now h.start_wall now;
}

unfoldable pub clear_history : StateHistory → StateHistory
clear_history h = record h { snapshots = []; wall_clocks = []; start_wall = none }

-- A Python index: counted from the start, or `-1 - n` as `from_end n`.
pub data Index : Type 0 where
  from_start from_end : ℕ → Index

unfoldable pub nth {ℓ} : {A : Type ℓ} → ℕ → List A → Result A
nth n [] = err index_error
nth zero (x ∷ xs) = ok x
nth (suc n) (x ∷ xs) = nth n xs

unfoldable pub get_round : Index → StateHistory → Result SwarmSnapshot
get_round (from_start n) h = nth n h.snapshots
get_round (from_end n) h =
    if ltb n (length h.snapshots)
    then nth (length h.snapshots - suc n) h.snapshots
    else err index_error

-- next((n for n in s.nodes if n.node_id == node_id), None)
unfoldable pub find_node : ℕ → List NodeState → Option NodeState
find_node i [] = none
find_node i (n ∷ ns) = if nat_eqb n.node_id i then some n else find_node i ns

unfoldable pub get_node_history : ℕ → StateHistory → List (Option NodeState)
unfolding find_node
get_node_history i h = map (λ s. find_node i s.nodes) h.snapshots

-- A measure of one round, over numbers `V`.
pub record MetricPoint (V : Type 0) : Type 0 where
  pub round_number : ℕ
  pub sim_time : ℕ
  pub wall_clock : ℕ
  pub node_count : ℕ
  pub numeric_values : List V

pub record MetricsCollector (V : Type 0) : Type 0 where
  pub history : StateHistory
  pub callbacks : List ℕ
  pub points_max : Option ℕ
  pub points : List (MetricPoint V)

unfoldable pub new_collector : {V : Type 0} → Option ℕ → MetricsCollector V
unfolding new_history
new_collector max = record {
  history = new_history max;
  callbacks = [];
  points_max = max;
  points = [];
}

-- except (TypeError, ValueError, KeyError): pass
abbrev pub is_skipped : Exc → Bool
is_skipped type_error = true
is_skipped value_error = true
is_skipped key_error = true
is_skipped _ = false

abbrev pub and_value : {V : Type 0} → V → Result (List V) → Result (List V)
and_value v (ok vs) = ok (v ∷ vs)
and_value v (err e) = err e

-- the loop of `record` over the nodes
unfoldable pub extract_all :
    {V : Type 0} → (NodeState → Result V) → List NodeState → Result (List V)
extract_all f [] = ok []
extract_all f (n ∷ ns) =
    let rest = extract_all f ns in
    elim (f n) [ ok v ↦ and_value v rest | err e ↦ if is_skipped e then rest else err e ]

unfoldable pub on_update : {V : Type 0} → ℕ → MetricsCollector V → MetricsCollector V
on_update cb c = record c { callbacks = c.callbacks ++ cb ∷ [] }

unfoldable pub without : ℕ → List ℕ → List ℕ
without cb [] = []
without cb (c ∷ cs) = let rest = without cb cs in if nat_eqb c cb then rest else c ∷ rest

unfoldable pub remove_callback : {V : Type 0} → ℕ → MetricsCollector V → MetricsCollector V
unfolding without
remove_callback cb c = record c { callbacks = without cb c.callbacks }

unfoldable pub clear : {V : Type 0} → MetricsCollector V → MetricsCollector V
unfolding clear_history
clear c = record c { history = clear_history c.history; points = [] }

module _ {V W : Type 0} ⦃o : Outside W⦄ where
  abbrev pub add_to_history : SwarmSnapshot → Exec (MetricsCollector V × W) (Unit {0})
  add_to_history s (c, w) =
      (ok tt, (record c { history = add_snapshot (o.clock w) s c.history }, w))

  abbrev pub add_point : SwarmSnapshot → List V → Exec (MetricsCollector V × W) (Unit {0})
  add_point s values (c, w) =
      let point : MetricPoint V = record {
        round_number = s.round_number;
        sim_time = s.time;
        wall_clock = o.clock w;
        node_count = length s.nodes;
        numeric_values = values;
      } in
      (ok tt, (record c { points = append_to c.points_max point c.points }, w))

  abbrev pub call_back : SwarmSnapshot → Exec (MetricsCollector V × W) (Unit {0})
  call_back s (c, w) = for_each c.callbacks (λ cb. call (o.notify cb s)) (c, w)

  -- record(snapshot); the extractor changes nothing outside
  unfoldable pub record_snapshot :
      (NodeState → Result V) → SwarmSnapshot → Exec (MetricsCollector V × W) (Unit {0})
  unfolding add_snapshot append_to extract_all
  record_snapshot f s = do
    add_to_history s
    values ← lift (extract_all f s.nodes)
    add_point s values
    call_back s

-- The functions of the module `statistics` and of Python's numbers.
pub record Numbers (V : Type 0) : Type 0 where
  pub nil : V
  pub minus : ℕ → ℕ → V
  pub mean_count : List ℕ → V
  pub mean : List V → V
  pub minimum : List V → V
  pub maximum : List V → V
  pub stdev : List V → V

pub record MetricsSummary (V : Type 0) : Type 0 where
  pub total_rounds : ℕ
  pub total_sim_time : V
  pub total_wall_time : V
  pub avg_node_count : V
  pub mean_per_round : List V
  pub min_per_round : List V
  pub max_per_round : List V
  pub std_per_round : List V

module _ {V : Type 0} (q : Numbers V) where
  -- points[-1].x - points[0].x if len(points) > 1 else 0.0
  abbrev last_of : ℕ → List ℕ → ℕ
  last_of x [] = x
  last_of x (y ∷ ys) = last_of y ys

  unfoldable pub spread : List ℕ → V
  spread [] = q.nil
  spread (x ∷ []) = q.nil
  spread (x ∷ y ∷ ys) = q.minus (last_of y ys) x

  -- f(p.numeric_values) if p.numeric_values else 0.0
  unfoldable pub or_zero : (List V → V) → List V → V
  or_zero f [] = q.nil
  or_zero f (v ∷ vs) = f (v ∷ vs)

  -- statistics.stdev for more than one value
  unfoldable pub deviation : List V → V
  deviation [] = q.nil
  deviation (v ∷ []) = q.nil
  deviation (v ∷ u ∷ vs) = q.stdev (v ∷ u ∷ vs)

  abbrev per_round : (List V → V) → List (MetricPoint V) → List V
  per_round f points = map (λ p. f p.numeric_values) points

  unfoldable pub summarize : MetricsCollector V → MetricsSummary V
  unfolding spread or_zero deviation
  summarize c = elim c.points [
    | [] ↦ record {
      total_rounds = 0;
      total_sim_time = q.nil;
      total_wall_time = q.nil;
      avg_node_count = q.nil;
      mean_per_round = [];
      min_per_round = [];
      max_per_round = [];
      std_per_round = [];
    }
    | p ∷ ps ↦ record {
      total_rounds = length (p ∷ ps);
      total_sim_time = spread (map (λ r. r.sim_time) (p ∷ ps));
      total_wall_time = spread (map (λ r. r.wall_clock) (p ∷ ps));
      avg_node_count = q.mean_count (map (λ r. r.node_count) (p ∷ ps));
      mean_per_round = per_round (or_zero q.mean) (p ∷ ps);
      min_per_round = per_round (or_zero q.minimum) (p ∷ ps);
      max_per_round = per_round (or_zero q.maximum) (p ∷ ps);
      std_per_round = per_round deviation (p ∷ ps);
    }
  ]
