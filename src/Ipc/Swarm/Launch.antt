-- ===== src/Ipc/Swarm/Launch.antt =====
-- `start` of swarm_process.py.
use package.text.Mathlib.Text.{starts_with}
use fcpp_bridge.Prelude.{
  inl, inr, ℕ, zero, suc, ◌+◌, String, ◌≡◌, refl, true, false, some, arith, string_key, ◌==◌,
  length, ltb,
}
use fcpp_bridge.Prelude.IdSet.{contains, IsIdSet}
use fcpp_bridge.Ipc.Exec.{ok, err, value_error}
use fcpp_bridge.Ipc.Exec.{Result-cases}
use fcpp_bridge.Ipc.Outside.{Outside}
use fcpp_bridge.Ipc.Swarm.{SwarmProcess, range_from, choose_backend, start}
use fcpp_bridge.Ipc.Swarm.Ids.{IsCounted, IsSequential, contains-range_from}

length-range_from : (start count : ℕ) → length (range_from start count) ≡ count
unfolding range_from
length-range_from start zero = refl
length-range_from start (suc n) = omega (arith, length-range_from (start + 1) n)

range_from-IsIdSet : (start count : ℕ) → IsIdSet (range_from start count)
unfolding range_from
range_from-IsIdSet start zero = tt
range_from-IsIdSet start (suc n) =
    (ground (arith, contains-range_from start (start + 1) n), range_from-IsIdSet (start + 1) n)

module _ {W : Type 0} ⦃o : Outside W⦄ where
  -- A successful `start` knows exactly the ids below the number of nodes, has the counter at that
  -- number, counts its nodes, and runs a process.
  pub start-IsCounted :
      (s : SwarmProcess) (i : ℕ) (w : W)
      → (start (s, w)).0 ≡ ok tt
      → let t = (start (s, w)).1.0 in
        (contains t.known_node_ids i ≡ ltb i s.num_nodes)
        × IsCounted t
        × IsSequential t
        × ((p : ℕ) × (t.process ≡ some p))
  unfolding start
  start-IsCounted s i w e =
      let n = s.num_nodes in
      (
        ground (arith, contains-range_from i 0 n),
        record {
          id_set = ground (arith, range_from-IsIdSet 0 n);
          counted = ground (arith, length-range_from 0 n);
        },
        record { below = λ j m. ground (arith, contains-range_from j 0 n) },
        elim (Result-cases (o.popen s.binary_path n w).0) [
          | inl (p, q) ↦ (p, ground arith)
          | inr (x, q) ↦ absurd (ground arith)
        ],
      )

  choose_backend_unknown :
      (name : String) (port : ℕ) (w : W)
      → (name == "unix") ≡ false
      → starts_with name "http://" ≡ false
      → (name == "grpc") ≡ false
      → choose_backend name port w ≡ (err value_error, w)
  unfolding choose_backend
  choose_backend_unknown name port w u h g = rw (u, h, g)

  -- With an unknown backend name `start` raises a ValueError after a launch that succeeds: the process
  -- is left running, and the node is as before.
  pub start_unknown_backend :
      (s : SwarmProcess) (w : W) (p : ℕ)
      → o.path_exists s.binary_path w ≡ true
      → (o.popen s.binary_path s.num_nodes w).0 ≡ ok p
      → (s.ipc_backend_name == "unix") ≡ false
      → starts_with s.ipc_backend_name "http://" ≡ false
      → (s.ipc_backend_name == "grpc") ≡ false
      → let (r, (t, w')) = start (s, w) in
        (r ≡ err value_error) × (t.process ≡ some p) × (t.node ≡ s.node)
  unfolding start
  start_unknown_backend s w p x q u h g = ground (
    arith,
    choose_backend_unknown s.ipc_backend_name s.ipc_port (o.popen s.binary_path s.num_nodes w).1 u h
        g,
  )
