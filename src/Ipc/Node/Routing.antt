-- ===== src/Ipc/Node/Routing.antt =====
-- Which listeners `_dispatch_update` of _ipc_node_base.py calls.
use fcpp_bridge.Prelude.{
  Option-cases, inl, inr, ℕ, zero, suc, ◌≡◌, refl, ap, Option, some, List, [], ◌∷◌, arith, nat_key,
  if◌then◌else◌, length, nat_eqb_iff, ◌==◌, All,
}
use fcpp_bridge.Prelude.Dict.{insert, lookup, lookup-insert}
use fcpp_bridge.Ipc.Exec.{Result-cases, ok, Exec, continue, for_each}
use fcpp_bridge.Ipc.Wire.{NodeState, SwarmSnapshot}
use fcpp_bridge.Ipc.Outside.{Outside}
use fcpp_bridge.Ipc.Listeners.{add_listener, ListenerProxy, dispatch, parse_mode, new_proxy}
use fcpp_bridge.Ipc.Liveness.{on_snapshot}
use fcpp_bridge.Ipc.Node.{IpcNode, route, dispatch_update, add_node_listener}

-- m, n times in a row; a raise ends it
pub repeat : {S : Type 0} → ℕ → Exec S (Unit {0}) → Exec S (Unit {0})
repeat zero m s = (ok tt, s)
repeat (suc n) m s = let (r, s') = m s in continue r (λ _. repeat n m) s'

-- Every node of the snapshot has a listener of its own.
abbrev pub AllOwned : IpcNode → List NodeState → Type 0
AllOwned n = All (λ s. (p : ListenerProxy) × (lookup s.node_id n.node_listeners ≡ some p))

-- the lookup of an id, after the proxy of a node got another listener
lookup-add_listener :
    (n : IpcNode) (i j fn lid : ℕ) (p : ListenerProxy)
    → (add_listener fn p).0 ≡ ok lid
    → let listeners = insert i (add_listener fn p).1 n.node_listeners in
      (lookup i listeners ≡ some (add_listener fn p).1)
      × (lookup lid (add_listener fn p).1.listeners ≡ some fn)
      × (lookup j listeners ≡ (if i == j then lookup i listeners else lookup j n.node_listeners))
unfolding add_listener
lookup-add_listener n i j fn lid p h =
    let q = (add_listener fn p).1 in
    (
      ground (arith, lookup-insert i i q n.node_listeners, nat_eqb_iff i i),
      ground (arith, lookup-insert p.next_id lid fn p.listeners, nat_eqb_iff p.next_id lid),
      ground (
        arith,
        lookup-insert i j q n.node_listeners,
        lookup-insert i i q n.node_listeners,
        nat_eqb_iff i i,
      ),
    )

module _ {W : Type 0} ⦃o : Outside W⦄ where
  route-owned :
      (n : IpcNode) (g : Option ListenerProxy) (snapshot : SwarmSnapshot) (i : ℕ) (w : W)
      (p : ListenerProxy)
      → lookup i n.node_listeners ≡ some p
      → route (record n { global_listener = g }) snapshot i w ≡ route n snapshot i w
  unfolding route
  route-owned n g snapshot i w p h = ground arith

  for_each-owned :
      (n : IpcNode) (g : Option ListenerProxy) (snapshot : SwarmSnapshot) (ns : List NodeState)
      (w : W)
      → AllOwned n ns
      → for_each ns (λ s. route (record n { global_listener = g }) snapshot s.node_id) w
        ≡ for_each ns (λ s. route n snapshot s.node_id) w
  unfolding for_each
  for_each-owned n g snapshot [] w h = refl
  for_each-owned n g snapshot (s ∷ ns) w (q, h) =
      let (p, e) = q in
      ground (
        arith,
        route-owned n g snapshot s.node_id w p e,
        for_each-owned n g snapshot ns (route n snapshot s.node_id w).1 h,
      )

  -- A listener of a node's own overrides the global one: when every node of the snapshot has one,
  -- an update has the same outcome and the same effects whatever the global listener is.
  pub dispatch_update-owned :
      (n : IpcNode) (g : Option ListenerProxy) (snapshot : SwarmSnapshot) (w : W)
      → AllOwned n snapshot.nodes
      → let d = dispatch_update snapshot (record n { global_listener = g }, w) in
        let d' = dispatch_update snapshot (n, w) in (d.0 ≡ d'.0) × (d.1.1 ≡ d'.1.1)
  unfolding dispatch_update
  dispatch_update-owned n g snapshot w h =
      let m = record n { strategy = on_snapshot (o.clock w) snapshot n.strategy } in
      let same = for_each-owned m g snapshot snapshot.nodes w h in
      (ap (λ r. r.0) same, ap (λ r. r.1) same)

  route-global :
      (n : IpcNode) (p : ListenerProxy) (snapshot : SwarmSnapshot) (ns : List NodeState) (w : W)
      → n.node_listeners ≡ []
      → n.global_listener ≡ some p
      → for_each ns (λ s. route n snapshot s.node_id) w ≡ repeat (length ns) (dispatch p snapshot) w
  unfolding for_each repeat route lookup
  route-global n p snapshot [] w e g = refl
  route-global n p snapshot (s ∷ ns) w e g =
      ground (arith, route-global n p snapshot ns (dispatch p snapshot w).1 e g)

  -- Without listeners of single nodes the global listener gets an update once for each node of the
  -- snapshot, each time with the whole snapshot; a listener that raises ends the row.
  pub dispatch_update-repeats_global :
      (n : IpcNode) (p : ListenerProxy) (snapshot : SwarmSnapshot) (w : W)
      → n.node_listeners ≡ []
      → n.global_listener ≡ some p
      → let d = dispatch_update snapshot (n, w) in
        let calls = repeat (length snapshot.nodes) (dispatch p snapshot) w in
        (d.0 ≡ calls.0) × (d.1.1 ≡ calls.1)
  unfolding dispatch_update
  dispatch_update-repeats_global n p snapshot w e g =
      let m = record n { strategy = on_snapshot (o.clock w) snapshot n.strategy } in
      let same = route-global m p snapshot snapshot.nodes w e g in
      (ap (λ r. r.0) same, ap (λ r. r.1) same)

  -- A listener that was added for a node is what an update of that node goes to, after the listeners
  -- that the node had; and the other nodes keep theirs.
  pub add_node_listener_routes :
      (n : IpcNode) (i j fn lid : ℕ) (w : W)
      → (add_node_listener i fn (n, w)).0 ≡ ok lid
      → let m = (add_node_listener i fn (n, w)).1.0 in
        ((p : ListenerProxy) × (lookup i m.node_listeners ≡ some p)
          × (lookup lid p.listeners ≡ some fn))
        × (lookup j m.node_listeners
            ≡ (if i == j then lookup i m.node_listeners else lookup j n.node_listeners))
  unfolding add_node_listener
  add_node_listener_routes n i j fn lid w h = elim (Option-cases (lookup i n.node_listeners)) [
    | inl e ↦ elim (Result-cases (parse_mode n.listener_mode)) [
      | inl (mode, f) ↦
          let kept = lookup-add_listener n i j fn lid (new_proxy mode) (ground arith) in
          rw (e, f, add_node_listener)
            (((add_listener fn (new_proxy mode)).1, kept.0, kept.1), kept.2)
      | inr (x, f) ↦ ground arith
    ]
    | inr (p, e) ↦
        let kept = lookup-add_listener n i j fn lid p (ground arith) in
        rw (e, add_node_listener) (((add_listener fn p).1, kept.0, kept.1), kept.2)
  ]
