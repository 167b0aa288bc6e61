-- ===== src/Ipc/Swarm/Ids.antt =====
-- The ids that swarm_process.py gives to nodes one after the other, or takes from the caller.
use fcpp_bridge.Prelude.{
  ℕ, zero, suc, ◌+◌, ◌<◌, ◌≡◌, refl, true, false, some, List, arith, nat_eqb_iff, length, ◌||◌,
  ◌&&◌, ltb, leb,
}
use fcpp_bridge.Prelude.IdSet.{contains, add, IsIdSet, contains-add, add-IsIdSet, length-add}
use fcpp_bridge.Ipc.Exec.{Exc, ok, err, value_error}
use fcpp_bridge.Ipc.Wire.{add_node}
use fcpp_bridge.Ipc.Outside.{Outside}
use fcpp_bridge.Ipc.Backend.{Backend, send_command}
use fcpp_bridge.Ipc.Swarm.{
  SwarmProcess, NodeOptions, explicit_entry, range_from, take_ids, add_node_explicit,
  add_nodes_sequential,
}

pub contains-range_from :
    (i start count : ℕ)
    → contains (range_from start count) i ≡ (leb start i && ltb i (start + count))
unfolding contains range_from
contains-range_from i start zero = ground arith
contains-range_from i start (suc n) = ground (arith, contains-range_from i (start + 1) n)

-- The counter hands out the next numbers in a row, whatever ids are in use.
take_ids-range_from :
    (count next : ℕ) (known : List ℕ)
    → ((take_ids count known next).0 ≡ range_from next count)
      × ((take_ids count known next).2 ≡ next + count)
unfolding take_ids range_from
take_ids-range_from zero next known = (refl, omega arith)
take_ids-range_from (suc n) next known =
    ground (arith, take_ids-range_from n (next + 1) (add next known))

contains-take_ids :
    (count next i : ℕ) (known : List ℕ)
    → contains (take_ids count known next).1 i
      ≡ ((leb next i && ltb i (next + count)) || contains known i)
unfolding take_ids
contains-take_ids zero next i known = ground arith
contains-take_ids (suc n) next i known =
    ground (arith, contains-take_ids n (next + 1) i (add next known), contains-add next i known)

length-take_ids :
    (count next : ℕ) (known : List ℕ)
    → ((i : ℕ) → contains known i ≡ true → i < next)
    → length (take_ids count known next).1 ≡ length known + count
unfolding take_ids
length-take_ids zero next known h = omega arith
length-take_ids (suc n) next known h = ground (
  arith,
  length-add next known,
  h next,
  length-take_ids n (next + 1) (add next known)
      (λ i m. ground (arith, contains-add next i known, nat_eqb_iff next i, h i)),
)

pub take_ids-IsIdSet :
    (count next : ℕ) (known : List ℕ) → IsIdSet known → IsIdSet (take_ids count known next).1
unfolding take_ids
take_ids-IsIdSet zero next known h = h
take_ids-IsIdSet (suc n) next known h =
    take_ids-IsIdSet n (next + 1) (add next known) (add-IsIdSet next known h)

-- The set holds no id twice, and the swarm counts as many nodes as it knows ids.
pub record IsCounted (s : SwarmProcess) : Type 0 where
  pub id_set : IsIdSet s.known_node_ids
  pub counted : s.num_nodes ≡ length s.known_node_ids

-- Every known id was handed out by the counter.
pub record IsSequential (s : SwarmProcess) : Type 0 where
  pub below : (i : ℕ) → contains s.known_node_ids i ≡ true → i < s.next_sequential_id

module _ {W : Type 0} ⦃o : Outside W⦄ where
  -- While every known id lies below the counter, the ids that `add_nodes_sequential` returns are the
  -- next numbers in a row, none of them was in use, and all of them are known afterwards.
  pub add_nodes_sequential-fresh :
      (s : SwarmProcess) (count : ℕ) (positions : List (List ℕ)) (w : W) {ids : List ℕ} (i : ℕ)
      → IsSequential s
      → (add_nodes_sequential count positions (s, w)).0 ≡ ok ids
      → contains ids i ≡ true
      → (ids ≡ range_from s.next_sequential_id count)
        × (contains s.known_node_ids i ≡ false)
        × (contains (add_nodes_sequential count positions (s, w)).1.0.known_node_ids i ≡ true)
  unfolding add_nodes_sequential
  add_nodes_sequential-fresh s count positions w {ids} i h e m =
      let known = s.known_node_ids in
      let next = s.next_sequential_id in
      ground (
        arith,
        take_ids-range_from count next known,
        contains-take_ids count next i known,
        contains-range_from i next count,
        h.below i,
      )

  -- A successful `add_nodes_sequential` keeps the counter above every known id and the number of
  -- nodes equal to the number of ids.
  pub add_nodes_sequential-IsCounted :
      (s : SwarmProcess) (count : ℕ) (positions : List (List ℕ)) (w : W) {ids : List ℕ}
      → IsSequential s
      → IsCounted s
      → (add_nodes_sequential count positions (s, w)).0 ≡ ok ids
      → IsCounted (add_nodes_sequential count positions (s, w)).1.0
        × IsSequential (add_nodes_sequential count positions (s, w)).1.0
  unfolding add_nodes_sequential
  add_nodes_sequential-IsCounted s count positions w h c e =
      let known = s.known_node_ids in
      let next = s.next_sequential_id in
      (
        ground (
          arith,
          length-take_ids count next known h.below,
          take_ids-IsIdSet count next known c.id_set,
        ),
        record {
          below = λ i m. ground (
            arith,
            take_ids-range_from count next known,
            contains-take_ids count next i known,
            h.below i,
          );
        },
      )

  -- A successful `add_node_explicit` makes an unused id known and counts one node more.
  pub add_node_explicit-IsCounted :
      (s : SwarmProcess) (i : ℕ) (position : List ℕ) (opts : NodeOptions) (w : W)
      → IsCounted s
      → (add_node_explicit i position opts (s, w)).0 ≡ ok tt
      → (contains s.known_node_ids i ≡ false)
        × (contains (add_node_explicit i position opts (s, w)).1.0.known_node_ids i ≡ true)
        × IsCounted (add_node_explicit i position opts (s, w)).1.0
  unfolding add_node_explicit
  add_node_explicit-IsCounted s i position opts w c e =
      let known = s.known_node_ids in
      ground (
        arith,
        contains-add i i known,
        nat_eqb_iff i i,
        length-add i known,
        add-IsIdSet i known c.id_set,
      )

  add_nodes_sequential_ids :
      (s : SwarmProcess) (count : ℕ) (positions : List (List ℕ)) (w : W) {ids : List ℕ}
      → (add_nodes_sequential count positions (s, w)).0 ≡ ok ids
      → ids ≡ range_from s.next_sequential_id count
  unfolding add_nodes_sequential
  add_nodes_sequential_ids s count positions w e =
      ground (arith, take_ids-range_from count s.next_sequential_id s.known_node_ids)

  add_node_explicit_counter :
      (s : SwarmProcess) (i : ℕ) (position : List ℕ) (opts : NodeOptions) (w : W)
      → (add_node_explicit i position opts (s, w)).1.0.next_sequential_id ≡ s.next_sequential_id
  unfolding add_node_explicit
  add_node_explicit_counter s i position opts w = ground arith

  -- The counter ignores ids that a caller chose: after a successful explicit node with the id that
  -- comes next, a successful `add_nodes_sequential` of at least one node hands the same id out again.
  pub add_nodes_sequential-collides :
      (s : SwarmProcess) (position : List ℕ) (opts : NodeOptions) (count : ℕ)
      (positions : List (List ℕ)) (w : W) {ids : List ℕ}
      → (add_node_explicit s.next_sequential_id position opts (s, w)).0 ≡ ok tt
      → (add_nodes_sequential
          (suc count)
          positions
          (add_node_explicit s.next_sequential_id position opts (s, w)).1).0
        ≡ ok ids
      → contains ids s.next_sequential_id ≡ true
  add_nodes_sequential-collides s position opts count positions w {ids} e f =
      let next = s.next_sequential_id in
      let (t, v) = (add_node_explicit next position opts (s, w)).1 in
      ground (
        arith,
        add_nodes_sequential_ids t (suc count) positions v f,
        add_node_explicit_counter s next position opts w,
        contains-range_from next next (suc count),
      )

  -- When the transport fails for an id that is not in use, `add_node_explicit` raises its error, keeps
  -- the id and does not count the node; the same call again is then refused, since the id is taken.
  pub add_node_explicit_retry :
      (s : SwarmProcess) (i : ℕ) (position : List ℕ) (opts : NodeOptions) (w : W) (b : Backend)
      {x : Exc}
      → s.node.backend ≡ some b
      → contains s.known_node_ids i ≡ false
      → (send_command b (add_node (explicit_entry opts i position)) w).0 ≡ err x
      → let (r, after) = add_node_explicit i position opts (s, w) in
        (r ≡ err x)
        × (after.0.num_nodes ≡ s.num_nodes)
        × ((add_node_explicit i position opts after).0 ≡ err value_error)
  unfolding add_node_explicit
  add_node_explicit_retry s i position opts w b c f e =
      ground (arith, contains-add i i s.known_node_ids, nat_eqb_iff i i)
