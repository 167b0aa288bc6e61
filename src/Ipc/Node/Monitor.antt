-- ===== src/Ipc/Node/Monitor.antt =====
-- The liveness monitor of _ipc_node_base.py: its thread, its stop event and its rounds.
use fcpp_bridge.Prelude.{
  ℕ, suc, ◌≡◌, refl, Bool, true, false, Option, none, some, List, [], ◌∷◌, arith, Bool-cases, inl,
  inr, nat_key,
}
use fcpp_bridge.Prelude.Dict.{Dict}
use fcpp_bridge.Ipc.Exec.{ok, Exec, ◌>>=◌, for_each}
use fcpp_bridge.Ipc.Outside.{Outside, thread_runs}
use fcpp_bridge.Ipc.Liveness.{passive, check}
use fcpp_bridge.Ipc.Node.{
  heartbeat_cycle, IpcNode, start_heartbeat_monitor, stop_heartbeat_monitor, check_liveness,
  report_dead, heartbeat_loop,
}

-- The thread and its stop event are there together.
abbrev pub IsPaired : Option ℕ → Option ℕ → Type 0
IsPaired (some t) (some e) = Unit
IsPaired none none = Unit
IsPaired _ _ = ⊥

module _ {W : Type 0} ⦃o : Outside W⦄ where
  -- Starting and stopping the monitor keep thread and event together.
  pub start_heartbeat_monitor-IsPaired :
      (n : IpcNode) (w : W)
      → IsPaired n.heartbeat_thread n.heartbeat_stop_event
      → let m = (start_heartbeat_monitor (n, w)).1.0 in
        IsPaired m.heartbeat_thread m.heartbeat_stop_event
  unfolding start_heartbeat_monitor
  start_heartbeat_monitor-IsPaired n w h = elim (Bool-cases (thread_runs n.heartbeat_thread w)) [
    | inl e ↦ rw e h
    | inr e ↦ rw e tt
  ]

  -- `check_liveness` gives its own timeout to the strategy, so the timeout that a passive strategy
  -- was constructed with never counts: two that differ in it alone give the same verdicts.
  pub check_liveness-ignores_timeout :
      (timeout t u : ℕ) (ts : Dict ℕ ℕ) (n : IpcNode) (w : W)
      → check_liveness timeout
          (record n { strategy = passive (record { timeout = t; timestamps = ts }) })
          w
        ≡ check_liveness timeout
            (record n { strategy = passive (record { timeout = u; timestamps = ts }) })
            w
  unfolding check_liveness check
  check_liveness-ignores_timeout timeout t u ts n w = refl

  -- Stopping the monitor leaves neither thread nor event behind.
  pub stop_heartbeat_monitor_clears :
      (n : IpcNode) (w : W)
      → IsPaired n.heartbeat_thread n.heartbeat_stop_event
      → let m = (stop_heartbeat_monitor (n, w)).1.0 in
        (m.heartbeat_thread ≡ none) × (m.heartbeat_stop_event ≡ none)
  unfolding stop_heartbeat_monitor
  stop_heartbeat_monitor_clears n w h = ground arith

  -- Starting the monitor while its thread runs changes nothing.
  pub start_heartbeat_monitor_again :
      (n : IpcNode) (w : W)
      → thread_runs n.heartbeat_thread w ≡ true
      → start_heartbeat_monitor (n, w) ≡ (ok tt, (n, w))
  unfolding start_heartbeat_monitor
  start_heartbeat_monitor_again n w e = ground arith

-- the nodes that a check reported as dead
unfoldable pub dead_ids : Dict ℕ Bool → List ℕ
dead_ids [] = []
dead_ids ((i, true) ∷ d) = dead_ids d
dead_ids ((i, false) ∷ d) = i ∷ dead_ids d

module _ {W S : Type 0} ⦃o : Outside W⦄ where
  report_dead-for_each :
      (on_dead : ℕ → Exec (S × W) (Unit {0})) (d : Dict ℕ Bool) (s : S × W)
      → report_dead on_dead d s ≡ for_each (dead_ids d) on_dead s
  unfolding report_dead dead_ids for_each
  report_dead-for_each on_dead [] s = refl
  report_dead-for_each on_dead ((i, true) ∷ d) s = report_dead-for_each on_dead d s
  report_dead-for_each on_dead ((i, false) ∷ d) s =
      ground (arith, report_dead-for_each on_dead d (on_dead i s).1)

  -- One round of the monitor checks the nodes and calls `on_dead` once for each node that the check
  -- reported as dead, in the order of the report, and for no other node.
  pub heartbeat_cycle-dead_ids :
      (base : S → IpcNode) (timeout : ℕ) (on_dead : ℕ → Exec (S × W) (Unit {0})) (s : S) (w : W)
      (d : Dict ℕ Bool)
      → (check_liveness timeout (base s) w).0 ≡ ok d
      → heartbeat_cycle base timeout (some on_dead) (s, w)
        ≡ for_each (dead_ids d) on_dead (s, (check_liveness timeout (base s) w).1)
  unfolding heartbeat_cycle
  heartbeat_cycle-dead_ids base timeout on_dead s w d h =
      rw (h, ◌>>=◌, heartbeat_cycle) (report_dead-for_each on_dead d _)

  -- The loop ends in the round whose test finds the stop event set, without another check.
  pub heartbeat_loop_ends :
      (rounds interval timeout e : ℕ) (base : S → IpcNode)
      (on_dead : Option (ℕ → Exec (S × W) (Unit {0}))) (s : S) (w : W)
      → (base s).heartbeat_stop_event ≡ some e
      → o.is_set e w ≡ true
      → heartbeat_loop (suc rounds) base interval timeout on_dead (s, w) ≡ (ok true, (s, w))
  unfolding heartbeat_loop
  heartbeat_loop_ends rounds interval timeout e base on_dead s w p q = rw (p, heartbeat_loop) (rw q)
