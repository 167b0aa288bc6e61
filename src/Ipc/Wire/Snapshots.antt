-- ===== src/Ipc/Wire/Snapshots.antt =====
-- `_parse_snapshot` of unix_socket_backend.py and http_backend.py.
use fcpp_bridge.Prelude.{
  ℕ, String, ◌≡◌, refl, true, List, [], ◌∷◌, map, All, arith, string_key, Option-cases, inl, inr,
}
use fcpp_bridge.Prelude.Dict.{Dict, lookup, has, lookup-none_iff}
use fcpp_bridge.Ipc.Exec.{ok}
use fcpp_bridge.Ipc.Wire.{
  NodeState, SwarmSnapshot, Json, listing, number_or_zero, parse_node, parse_nodes, parse_snapshot,
}

abbrev pub node_ids : List NodeState → List ℕ
node_ids [] = []
node_ids (n ∷ ns) = n.node_id ∷ node_ids ns

-- an object with an id
abbrev pub Named : Dict String Json → Type 0
Named n = has "id" n ≡ true

module _ (number_of : Json → ℕ) where
  parse_nodes_total :
      (entries : List (Dict String Json))
      → All Named entries
      → (ns : List NodeState) × (parse_nodes number_of entries ≡ ok ns)
        × (node_ids ns ≡ map (λ n. number_or_zero number_of (lookup "id" n)) entries)
  unfolding parse_nodes parse_node
  parse_nodes_total [] h = ([], refl, refl)
  parse_nodes_total (n ∷ entries) (h, hs) =
      let (ns, p, q) = parse_nodes_total entries hs in
      elim (Option-cases (lookup "id" n)) [
        | inl e ↦ absurd (ground (arith, h, e, lookup-none_iff "id" n))
        | inr (i, e) ↦ (
          record {
            node_id = number_of i;
            state_data = lookup "state" n;
            timestamp = number_or_zero number_of (lookup "timestamp" n);
          }
              ∷ ns,
          ground (arith, e, p),
          ground (arith, e, q),
        )
      ]

  -- An answer that lists objects with an id each is read without an error, as a snapshot with one node
  -- for each of them, in their order and with their ids; the round is 0 where it is missing.
  pub parse_snapshot_total :
      (d : Dict String Json) (entries : List (Dict String Json))
      → All Named entries
      → (s : SwarmSnapshot) × (parse_snapshot number_of (listing d entries) ≡ ok s)
        × (node_ids s.nodes ≡ map (λ n. number_or_zero number_of (lookup "id" n)) entries)
        × (s.round_number ≡ number_or_zero number_of (lookup "round" d))
  unfolding parse_snapshot
  parse_snapshot_total d entries h =
      let (ns, p, q) = parse_nodes_total entries h in
      (
        record {
          round_number = number_or_zero number_of (lookup "round" d);
          time = number_or_zero number_of (lookup "time" d);
          nodes = ns;
        },
        rw p refl,
        q,
        refl,
      )
