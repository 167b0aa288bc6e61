-- ===== src/Ipc/Channels/Fanout.antt =====
-- The ids of sub-channels, and clones of a proxy channel.
use fcpp_bridge.Prelude.{ℕ, [], ◌∷◌, ◌≡◌, arith, nat_key, inl, inr}
use fcpp_bridge.Prelude.Dict.{Dict, keys}
use fcpp_bridge.Ipc.Exec.{ok, Result-cases}
use fcpp_bridge.Ipc.Channels.{OutputChannel, ProxyOutputChannel, clone_channels, clone_proxy}

module _ {C Payload W : Type 0} (o : OutputChannel C Payload W) where
  clone_channels-keys :
      (d : Dict ℕ C) (w : W) {cs : Dict ℕ C} → (clone_channels o d w).0 ≡ ok cs → keys cs ≡ keys d
  unfolding clone_channels
  clone_channels-keys [] w q = ground arith
  clone_channels-keys ((i, c) ∷ d) w q = elim (Result-cases (o.clone c w).0) [
    | inr (e, p) ↦ absurd (ground (arith, p))
    | inl (c', p) ↦ elim (Result-cases (clone_channels o d (o.clone c w).1).0) [
      | inr (e, r) ↦ absurd (ground (arith, p, r))
      | inl (cs', r) ↦ ground (arith, p, r, clone_channels-keys d (o.clone c w).1 r)
    ]
  ]

  -- A clone of a proxy channel that succeeds has the mode, the next id and the ids of the original, in
  -- their order, so an id that was handed out before removes the clone's own sub-channel.
  pub clone_proxy-ids :
      (p : ProxyOutputChannel C) (w : W) {q : ProxyOutputChannel C}
      → (clone_proxy o p w).0 ≡ ok q
      → (q.fan_mode ≡ p.fan_mode) × (q.next_id ≡ p.next_id) × (keys q.channels ≡ keys p.channels)
  unfolding clone_proxy
  clone_proxy-ids p w h = elim (Result-cases (clone_channels o p.channels w).0) [
    | inr (e, r) ↦ absurd (ground (arith, r))
    | inl (cs, r) ↦ ground (arith, r, clone_channels-keys p.channels w r)
  ]
