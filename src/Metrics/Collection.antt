-- ===== src/Metrics/Collection.antt =====
-- MetricsCollector: what `record` keeps, and the shape of a summary.
use fcpp_bridge.Prelude.{
  ℕ, suc, ◌-◌, ◌≡◌, refl, ap, ◌∙◌, false, Option, none, some, List, [], ◌∷◌, ◌++◌, length,
  length-append, length-map, arith, nat_eqb, if◌then◌else◌, inl, inr,
}
use fcpp_bridge.Prelude.IdSet.{contains, contains-append}
use fcpp_bridge.Ipc.Exec.{Exc, Result, ok, err, for_each, Result-cases}
use fcpp_bridge.Ipc.Wire.{NodeState, SwarmSnapshot}
use fcpp_bridge.Ipc.Outside.{Outside, call}
use fcpp_bridge.Metrics.{
  append_to, add_snapshot, MetricPoint, MetricsCollector, is_skipped, extract_all, on_update,
  without, remove_callback, record_snapshot, Numbers, summarize,
}
use fcpp_bridge.Metrics.History.{length-drop}

-- The history and the measures have the same bound and the same length.
pub record IsAligned {V : Type 0} (c : MetricsCollector V) : Type 0 where
  pub same_bound : c.points_max ≡ c.history.max_size
  pub same_length : length c.points ≡ length c.history.snapshots

length-append_to :
    {A B : Type 0} (max : Option ℕ) (x : A) (y : B) (xs : List A) (ys : List B)
    → length xs ≡ length ys
    → length (append_to max x xs) ≡ length (append_to max y ys)
unfolding append_to
length-append_to none x y xs ys e =
    omega (arith, e, length-append xs (x ∷ []), length-append ys (y ∷ []))
length-append_to (some n) x y xs ys e = omega (
  arith,
  e,
  length-append xs (x ∷ []),
  length-append ys (y ∷ []),
  length-drop (length (xs ++ x ∷ []) - n) (xs ++ x ∷ []),
  length-drop (length (ys ++ y ∷ []) - n) (ys ++ y ∷ []),
)

-- the measure that `record` makes
abbrev point_of : {V : Type 0} → ℕ → SwarmSnapshot → List V → MetricPoint V
point_of now s vs = record {
  round_number = s.round_number;
  sim_time = s.time;
  wall_clock = now;
  node_count = length s.nodes;
  numeric_values = vs;
}

-- what a call leaves behind when the extractor gave values
abbrev recorded :
    {V : Type 0} → ℕ → SwarmSnapshot → List V → MetricsCollector V → MetricsCollector V
recorded now s vs c = record c {
  history = add_snapshot now s c.history;
  points = append_to c.points_max (point_of now s vs) c.points;
}

module _ {V W : Type 0} ⦃o : Outside W⦄ where
  call_backs_keep :
      (cbs : List ℕ) (s : SwarmSnapshot) (c : MetricsCollector V) (w : W)
      → (for_each cbs (λ cb. call (o.notify cb s)) (c, w)).1.0 ≡ c
  unfolding for_each
  call_backs_keep [] s c w = refl
  call_backs_keep (cb ∷ cbs) s c w = ground (arith, call_backs_keep cbs s c (o.notify cb s w).1)

  record_snapshot-recorded :
      (f : NodeState → Result V) (s : SwarmSnapshot) (c : MetricsCollector V) (w : W) {vs : List V}
      → extract_all f s.nodes ≡ ok vs
      → (record_snapshot f s (c, w)).1.0 ≡ recorded (o.clock w) s vs c
  unfolding record_snapshot
  record_snapshot-recorded f s c w {vs} e =
      rw e (call_backs_keep c.callbacks s (recorded (o.clock w) s vs c) w)

  -- When the extractor gives values or raises what `record` skips, history and measures stay aligned,
  -- also when a callback raises, and the new snapshot is in the history.
  pub record_snapshot-IsAligned :
      (f : NodeState → Result V) (s : SwarmSnapshot) (c : MetricsCollector V) (w : W) {vs : List V}
      → IsAligned c
      → extract_all f s.nodes ≡ ok vs
      → let d = (record_snapshot f s (c, w)).1.0 in
        IsAligned d × (d.history ≡ add_snapshot (o.clock w) s c.history)
  unfolding add_snapshot
  record_snapshot-IsAligned f s c w {vs} h e =
      let same = record_snapshot-recorded f s c w e in
      rw same (
        record {
          same_bound = h.same_bound;
          same_length =
              ap (λ m. length (append_to m (point_of (o.clock w) s vs) c.points)) h.same_bound
              ∙ length-append_to c.history.max_size (point_of (o.clock w) s vs) s c.points
                  c.history.snapshots h.same_length;
        },
        refl,
      )

  -- When the extractor raises anything else, `record` raises it after the snapshot went into the
  -- history: no measure is added and no callback is called.
  pub record_snapshot_fails :
      (f : NodeState → Result V) (s : SwarmSnapshot) (c : MetricsCollector V) (w : W) {x : Exc}
      → extract_all f s.nodes ≡ err x
      → record_snapshot f s (c, w)
        ≡ (err x, (record c { history = add_snapshot (o.clock w) s c.history }, w))
  unfolding record_snapshot
  record_snapshot_fails f s c w e = rw e refl

-- What the extractor raises reaches the caller only if it is not one of the three skipped classes.
pub extract_all_raises :
    {V : Type 0} (f : NodeState → Result V) (ns : List NodeState) {x : Exc}
    → extract_all f ns ≡ err x
    → is_skipped x ≡ false
unfolding extract_all
extract_all_raises f [] e = ground arith
extract_all_raises f (n ∷ ns) {x} e = elim (Result-cases (f n)) [
  | inl (v, q) ↦ ground (arith, extract_all_raises f ns {x = x}, Result-cases (extract_all f ns))
  | inr (y, q) ↦ ground (arith, q, extract_all_raises f ns {x = x})
]

-- A summary counts the measures and has one entry for each of them in every list.
pub summarize_shape :
    {V : Type 0} (q : Numbers V) (c : MetricsCollector V)
    → let s = summarize q c in
      (s.total_rounds ≡ length c.points)
      × (length s.mean_per_round ≡ length c.points)
      × (length s.min_per_round ≡ length c.points)
      × (length s.max_per_round ≡ length c.points)
      × (length s.std_per_round ≡ length c.points)
unfolding summarize
summarize_shape q c =
    elim c.points
      as (λ ps.
        let s = summarize q (record c { points = ps }) in
        (s.total_rounds ≡ length ps)
        × (length s.mean_per_round ≡ length ps)
        × (length s.min_per_round ≡ length ps)
        × (length s.max_per_round ≡ length ps)
        × (length s.std_per_round ≡ length ps)) [
          | [] ↦ (refl, refl, refl, refl, refl)
          | p ∷ ps ↦ (
            refl,
            ap suc (length-map _ ps),
            ap suc (length-map _ ps),
            ap suc (length-map _ ps),
            ap suc (length-map _ ps),
          )
        ]

contains-without :
    (cb d : ℕ) (cs : List ℕ)
    → contains (without cb cs) d ≡ (if nat_eqb cb d then false else contains cs d)
unfolding contains without
contains-without cb d [] = ground arith
contains-without cb d (c ∷ cs) = ground (arith, contains-without cb d cs)

-- Removing a callback removes every registration of it and no other one, however often it was
-- registered.
pub remove_callback-on_update :
    {V : Type 0} (cb d : ℕ) (c : MetricsCollector V)
    → contains (remove_callback cb (on_update cb c)).callbacks d
      ≡ (if nat_eqb cb d then false else contains c.callbacks d)
unfolding remove_callback on_update contains
remove_callback-on_update cb d c =
    ground (
      arith,
      contains-without cb d (c.callbacks ++ cb ∷ []),
      contains-append c.callbacks (cb ∷ []) d,
    )
