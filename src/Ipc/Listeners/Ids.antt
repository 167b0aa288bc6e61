-- ===== src/Ipc/Listeners/Ids.antt =====
-- The ids that listener_proxy.py hands out.
use fcpp_bridge.Prelude.{
  ℕ, ◌<◌, ◌≤◌, ◌≡◌, true, false, some, List, [], ◌∷◌, ◌++◌, arith, nat_key, nat_eqb_iff, Bool-cases,
  inl, inr,
}
use fcpp_bridge.Prelude.Dict.{
  values, has, lookup, IsDict, insert-IsDict, remove-IsDict, lookup-insert, has-insert, has-remove,
  values-insert_new, remove-insert_new,
}
use fcpp_bridge.Ipc.Exec.{ok}
use fcpp_bridge.Ipc.Listeners.{
  Mode, ListenerProxy, new_proxy, add_listener, remove_listener, close_proxy,
}

-- Every id in use was handed out before, so the next one is new.
pub record IsFresh (p : ListenerProxy) : Type 0 where
  pub dict : IsDict p.listeners
  pub below : (i : ℕ) → has i p.listeners ≡ true → i < p.next_id

pub new_proxy-IsFresh : (m : Mode) → IsFresh (new_proxy m)
unfolding new_proxy has
new_proxy-IsFresh m = record { dict = tt; below = λ i h. ground arith }

pub add_listener-IsFresh : (fn : ℕ) (p : ListenerProxy) → IsFresh p → IsFresh (add_listener fn p).1
unfolding add_listener
add_listener-IsFresh fn p h = record {
  dict = insert-IsDict p.next_id fn p.listeners h.dict;
  below = λ i m.
      ground (arith, has-insert p.next_id i fn p.listeners, h.below i, nat_eqb_iff p.next_id i);
}

pub remove_listener-IsFresh :
    (i : ℕ) (p : ListenerProxy) → IsFresh p → IsFresh (remove_listener i p).1
unfolding remove_listener
remove_listener-IsFresh i p h = record {
  dict = ground (arith, remove-IsDict i p.listeners h.dict);
  below = λ j m. ground (arith, has-remove i j p.listeners h.dict, h.below j);
}

pub next_id_unused : (p : ListenerProxy) → IsFresh p → has p.next_id p.listeners ≡ false
next_id_unused p h = elim (Bool-cases (has p.next_id p.listeners)) [
  | inl e ↦ absurd (omega (arith, h.below p.next_id e))
  | inr e ↦ e
]

pub data Op : Type 0 where
  add drop : ℕ → Op
  shut : Op

unfoldable pub apply : Op → ListenerProxy → ListenerProxy
apply (add fn) p = (add_listener fn p).1
apply (drop i) p = (remove_listener i p).1
apply shut p = close_proxy p

unfoldable pub run : List Op → ListenerProxy → ListenerProxy
run [] p = p
run (c ∷ cs) p = run cs (apply c p)

pub run-IsFresh : (cs : List Op) (p : ListenerProxy) → IsFresh p → IsFresh (run cs p)
unfolding run apply close_proxy
run-IsFresh [] p h = h
run-IsFresh (add fn ∷ cs) p h = run-IsFresh cs _ (add_listener-IsFresh fn p h)
run-IsFresh (drop i ∷ cs) p h = run-IsFresh cs _ (remove_listener-IsFresh i p h)
run-IsFresh (shut ∷ cs) p h = run-IsFresh cs _ (record { dict = h.dict; below = h.below })

run-next_id_grows : (cs : List Op) (p : ListenerProxy) → p.next_id ≤ (run cs p).next_id
unfolding run apply add_listener remove_listener close_proxy
run-next_id_grows [] p = omega arith
run-next_id_grows (add fn ∷ cs) p = omega (arith, run-next_id_grows cs (add_listener fn p).1)
run-next_id_grows (drop i ∷ cs) p = ground (arith, run-next_id_grows cs (remove_listener i p).1)
run-next_id_grows (shut ∷ cs) p = run-next_id_grows cs (close_proxy p)

-- A listener id is never handed out twice: whatever is registered, removed or closed after one
-- registration, a later registration returns another id, and that id is not in use.
pub add_listener-never_reuses :
    (fn g : ℕ) (cs : List Op) (p : ListenerProxy) (i j : ℕ)
    → IsFresh p
    → (add_listener fn p).0 ≡ ok i
    → (add_listener g (run cs (add_listener fn p).1)).0 ≡ ok j
    → (i < j) × (has j (run cs (add_listener fn p).1).listeners ≡ false)
unfolding add_listener
add_listener-never_reuses fn g cs p i j h e f =
    let q = run cs (add_listener fn p).1 in
    let fresh = run-IsFresh cs _ (add_listener-IsFresh fn p h) in
    ground (arith, run-next_id_grows cs (add_listener fn p).1, next_id_unused q fresh)

-- After a registration the id leads to the listener, and the listener is the last to be called;
-- removing it brings the listeners back to what they were.
pub remove-add_listener :
    (fn : ℕ) (p : ListenerProxy) (i : ℕ)
    → IsFresh p
    → (add_listener fn p).0 ≡ ok i
    → (values (add_listener fn p).1.listeners ≡ values p.listeners ++ fn ∷ [])
      × (lookup i (add_listener fn p).1.listeners ≡ some fn)
      × ((remove_listener i (add_listener fn p).1).0 ≡ ok tt)
      × ((remove_listener i (add_listener fn p).1).1.listeners ≡ p.listeners)
unfolding add_listener remove_listener
remove-add_listener fn p i h e =
    let unused = next_id_unused p h in
    let k = p.next_id in
    (
      values-insert_new k fn p.listeners unused,
      ground (arith, lookup-insert k i fn p.listeners, nat_eqb_iff k i),
      ground (arith, has-insert k i fn p.listeners, nat_eqb_iff k i),
      ground (
        arith,
        has-insert k i fn p.listeners,
        nat_eqb_iff k i,
        remove-insert_new k fn p.listeners unused,
      ),
    )
