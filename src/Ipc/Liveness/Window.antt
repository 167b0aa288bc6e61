-- ===== src/Ipc/Liveness/Window.antt =====
-- PassiveHeartbeatStrategy: the age of the last snapshot decides.
use fcpp_bridge.Prelude.{
  ℕ, ◌-◌, ◌≡◌, refl, Bool, Option, none, some, List, [], ◌∷◌, arith, nat_key, leb, if◌then◌else◌,
}
use fcpp_bridge.Prelude.Dict.{Dict, lookup, insert, lookup-insert}
use fcpp_bridge.Prelude.IdSet.{contains}
use fcpp_bridge.Ipc.Exec.{Result, ok, err}
use fcpp_bridge.Ipc.Wire.{SwarmSnapshot}
use fcpp_bridge.Ipc.Outside.{Outside}
use fcpp_bridge.Ipc.Backend.{Backend}
use fcpp_bridge.Ipc.Liveness.{
  PassiveHeartbeat, passive, ids_of, stamp_all, on_snapshot, judge, check, or_default,
}

lookup-stamp_all :
    (now i : ℕ) (is : List ℕ) (ts : Dict ℕ ℕ)
    → lookup i (stamp_all now is ts) ≡ (if contains is i then some now else lookup i ts)
unfolding stamp_all contains
lookup-stamp_all now i [] ts = refl
lookup-stamp_all now i (j ∷ is) ts =
    ground (arith, lookup-stamp_all now i is (insert j now ts), lookup-insert j i now ts)

abbrev verdict : ℕ → ℕ → Option ℕ → Option Bool
verdict now t none = none
verdict now t (some ts) = some (leb (now - ts) t)

pub lookup-judge :
    (now t i : ℕ) (d : Dict ℕ ℕ) → lookup i (judge now t d) ≡ verdict now t (lookup i d)
unfolding lookup judge
lookup-judge now t i [] = refl
lookup-judge now t i ((j, ts) ∷ d) = ground (arith, lookup-judge now t i d)

-- the dict that a check returned, or none at all
abbrev pub verdicts : {W : Type 0} → Result (Dict ℕ Bool) × W → Dict ℕ Bool
verdicts (ok d, w) = d
verdicts (err e, w) = []

module _ {W : Type 0} ⦃o : Outside W⦄ where
  -- After a snapshot at time `now`, a check by the passive strategy reports a node that the snapshot
  -- holds as alive exactly when no more than the timeout has passed since `now`. For every other
  -- node the verdict is the one that a check without the snapshot gives.
  pub check-on_snapshot :
      (now i : ℕ) (snapshot : SwarmSnapshot) (timeout ping_timeout : Option ℕ)
      (backend : Option Backend) (s : PassiveHeartbeat) (w : W)
      → lookup i
          (verdicts (check timeout ping_timeout backend (on_snapshot now snapshot (passive s)) w))
        ≡ (if contains (ids_of snapshot.nodes) i
            then some (leb (o.clock w - now) (or_default timeout s.timeout))
            else lookup i (verdicts (check timeout ping_timeout backend (passive s) w)))
  unfolding check on_snapshot
  check-on_snapshot now i snapshot timeout ping_timeout backend s w =
      let is = ids_of snapshot.nodes in
      let t = or_default timeout s.timeout in
      ground (
        arith,
        lookup-judge (o.clock w) t i (stamp_all now is s.timestamps),
        lookup-judge (o.clock w) t i s.timestamps,
        lookup-stamp_all now i is s.timestamps,
      )
