-- ===== src/Ipc/Liveness/Tracking.antt =====
-- Which nodes a strategy of liveness_strategy.py reports on.
use fcpp_bridge.Prelude.{
  ℕ, ◌≡◌, refl, ap, Bool, true, false, Option, none, some, List, [], ◌∷◌, arith, nat_key, nat_eqb,
  if◌then◌else◌, ◌||◌,
}
use fcpp_bridge.Prelude.Dict.{
  Dict, keys, insert, remove, has, IsDict, has-insert, has-remove, insert-IsDict, remove-IsDict,
}
use fcpp_bridge.Prelude.IdSet.{
  contains, add, IsIdSet, contains-add, contains-discard, add-IsIdSet, discard-IsIdSet,
}
use fcpp_bridge.Ipc.Exec.{Result, ok, try-pure_total}
use fcpp_bridge.Ipc.Wire.{SwarmSnapshot}
use fcpp_bridge.Ipc.Outside.{Outside}
use fcpp_bridge.Ipc.Backend.{Backend}
use fcpp_bridge.Ipc.Liveness.{
  Strategy, passive, active, always, ids_of, stamp_all, add_all, on_snapshot, forget, judge, report,
  ask, ping_one, ping_all, check, tracked, or_default,
}

-- A dict has no key twice, and a set no member.
abbrev pub IsTracking : Strategy → Type 0
IsTracking (passive s) = IsDict s.timestamps
IsTracking (active s) = IsIdSet s.known_ids
IsTracking (always s) = IsIdSet s.known_ids

contains-keys : (i : ℕ) (d : Dict ℕ ℕ) → contains (keys d) i ≡ has i d
unfolding contains has
contains-keys i [] = refl
contains-keys i ((j, v) ∷ d) = ground (arith, contains-keys i d)

has-stamp_all :
    (now i : ℕ) (is : List ℕ) (ts : Dict ℕ ℕ)
    → has i (stamp_all now is ts) ≡ (contains is i || has i ts)
unfolding stamp_all contains
has-stamp_all now i [] ts = refl
has-stamp_all now i (j ∷ is) ts =
    ground (arith, has-stamp_all now i is (insert j now ts), has-insert j i now ts)

contains-add_all :
    (i : ℕ) (is s : List ℕ) → contains (add_all is s) i ≡ (contains is i || contains s i)
unfolding add_all contains
contains-add_all i [] s = refl
contains-add_all i (j ∷ is) s = ground (arith, contains-add_all i is (add j s), contains-add j i s)

stamp_all-IsDict :
    (now : ℕ) (is : List ℕ) (ts : Dict ℕ ℕ) → IsDict ts → IsDict (stamp_all now is ts)
unfolding stamp_all
stamp_all-IsDict now [] ts h = h
stamp_all-IsDict now (i ∷ is) ts h =
    stamp_all-IsDict now is (insert i now ts) (insert-IsDict i now ts h)

add_all-IsIdSet : (is s : List ℕ) → IsIdSet s → IsIdSet (add_all is s)
unfolding add_all
add_all-IsIdSet [] s h = h
add_all-IsIdSet (i ∷ is) s h = add_all-IsIdSet is (add i s) (add-IsIdSet i s h)

pub on_snapshot-IsTracking :
    (now : ℕ) (snapshot : SwarmSnapshot) (s : Strategy)
    → IsTracking s
    → IsTracking (on_snapshot now snapshot s)
unfolding on_snapshot
on_snapshot-IsTracking now snapshot (passive s) h = stamp_all-IsDict now _ s.timestamps h
on_snapshot-IsTracking now snapshot (active s) h = add_all-IsIdSet _ s.known_ids h
on_snapshot-IsTracking now snapshot (always s) h = add_all-IsIdSet _ s.known_ids h

pub forget-IsTracking : (i : ℕ) (s : Strategy) → IsTracking s → IsTracking (forget i s)
unfolding forget
forget-IsTracking i (passive s) h = remove-IsDict i s.timestamps h
forget-IsTracking i (active s) h = discard-IsIdSet i s.known_ids h
forget-IsTracking i (always s) h = discard-IsIdSet i s.known_ids h

-- A snapshot adds its nodes to what a strategy tracks and drops none.
pub tracked-on_snapshot :
    (now i : ℕ) (snapshot : SwarmSnapshot) (s : Strategy)
    → contains (tracked (on_snapshot now snapshot s)) i
      ≡ (contains (ids_of snapshot.nodes) i || contains (tracked s) i)
unfolding on_snapshot tracked
tracked-on_snapshot now i snapshot (passive s) = ground (
  arith,
  contains-keys i (stamp_all now (ids_of snapshot.nodes) s.timestamps),
  contains-keys i s.timestamps,
  has-stamp_all now i (ids_of snapshot.nodes) s.timestamps,
)
tracked-on_snapshot now i snapshot (active s) = contains-add_all i _ s.known_ids
tracked-on_snapshot now i snapshot (always s) = contains-add_all i _ s.known_ids

-- `discard` drops one node from what a strategy tracks and keeps the others.
pub tracked-forget :
    (i j : ℕ) (s : Strategy)
    → IsTracking s
    → contains (tracked (forget i s)) j ≡ (if nat_eqb i j then false else contains (tracked s) j)
unfolding forget tracked
tracked-forget i j (passive s) h = ground (
  arith,
  contains-keys j (remove i s.timestamps),
  contains-keys j s.timestamps,
  has-remove i j s.timestamps h,
)
tracked-forget i j (active s) h = contains-discard i j s.known_ids h
tracked-forget i j (always s) h = contains-discard i j s.known_ids h

keys-judge : (now t : ℕ) (d : Dict ℕ ℕ) → keys (judge now t d) ≡ keys d
unfolding judge
keys-judge now t [] = refl
keys-judge now t ((i, ts) ∷ d) = ap (λ r. i ∷ r) (keys-judge now t d)

keys-report : (b : Bool) (is : List ℕ) → keys (report b is) ≡ is
unfolding report
keys-report b [] = refl
keys-report b (i ∷ is) = ap (λ r. i ∷ r) (keys-report b is)

module _ {W : Type 0} ⦃o : Outside W⦄ where
  -- The run returned a dict over exactly these keys.
  abbrev pub Reports : List ℕ → Result (Dict ℕ Bool) × W → Type 0
  Reports is (r, w) = (d : Dict ℕ Bool) × (r ≡ ok d) × (keys d ≡ is)

  pub ping_one_total : (b : Backend) (t i : ℕ) (w : W) → (a : Bool) × ((ping_one b t i w).0 ≡ ok a)
  unfolding ping_one
  ping_one_total b t i w = try-pure_total (ask b t i) false w

  ping_all-Reports : (b : Backend) (t : ℕ) (is : List ℕ) (w : W) → Reports is (ping_all b t is w)
  unfolding ping_all
  ping_all-Reports b t [] w = ([], refl, refl)
  ping_all-Reports b t (i ∷ is) w =
      let (a, p) = ping_one_total b t i w in
      let (d, q, k) = ping_all-Reports b t is (ping_one b t i w).1 in
      ((i, a) ∷ d, ground arith, ground arith)

  -- A check never raises, whatever the backend does, and its verdicts are on exactly the tracked
  -- nodes, in their order.
  pub check_total :
      (timeout ping_timeout : Option ℕ) (backend : Option Backend) (s : Strategy) (w : W)
      → (d : Dict ℕ Bool) × ((check timeout ping_timeout backend s w).0 ≡ ok d)
        × (keys d ≡ tracked s)
  unfolding check tracked
  check_total timeout ping_timeout backend (passive s) w = (
    judge (o.clock w) (or_default timeout s.timeout) s.timestamps,
    refl,
    keys-judge _ _ s.timestamps,
  )
  check_total timeout ping_timeout none (active s) w =
      (report false s.known_ids, refl, keys-report false s.known_ids)
  check_total timeout ping_timeout (some b) (active s) w =
      ping_all-Reports b (or_default ping_timeout s.ping_timeout) s.known_ids w
  check_total timeout ping_timeout backend (always s) w =
      (report true s.known_ids, refl, keys-report true s.known_ids)
