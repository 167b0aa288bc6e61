-- ===== src/Ipc/Liveness/Ping.antt =====
-- ActivePingStrategy: what a verdict says of the exchange with the node.
use fcpp_bridge.Prelude.{
  ℕ, ◌≡◌, ◌≢◌, ◌↔◌, ◌⊎◌, inl, inr, refl, true, false, Option, none, some, arith, Bool-cases,
}
use package.text.Mathlib.TextEquality.{eq_iff}
use fcpp_bridge.Ipc.Exec.{Result, ok, err, pure, continue, try◌except◌}
use fcpp_bridge.Ipc.Wire.{ping, Json, text, raw, Reply, get_field}
use fcpp_bridge.Ipc.Outside.{Outside}
use fcpp_bridge.Ipc.Backend.{Backend, send_command}
use fcpp_bridge.Ipc.Liveness.{read_status, ping_one, is_pong}

-- The answer is an object whose field `status` is the text "pong".
abbrev pub IsPong : Result Reply → Type 0
IsPong (ok r) = get_field r "status" ≡ ok (some (text "pong"))
IsPong (err e) = ⊥

is_pong_iff : (v : Option Json) → (is_pong v ≡ true) ↔ (v ≡ some (text "pong"))
is_pong_iff none = ground arith
is_pong_iff (some (raw s)) = ground arith
is_pong_iff (some (text s)) = ground (arith, eq_iff s "pong")

module _ {W : Type 0} ⦃o : Outside W⦄ where
  read_status_cases :
      (f : Result (Option Json)) (w : W)
      → let r = (try continue f (λ s. pure (is_pong s)) except λ e. pure false) w in
        ((f ≡ ok (some (text "pong"))) × (r.0 ≡ ok true))
        ⊎ ((f ≢ ok (some (text "pong"))) × (r.0 ≡ ok false))
  read_status_cases (ok s) w = elim (Bool-cases (is_pong s)) [
    | inl e ↦ inl (ground (arith, is_pong_iff s, e), ground (arith, e))
    | inr e ↦ inr (ground (arith, is_pong_iff s, e), ground (arith, e))
  ]
  read_status_cases (err e) w = inr (ground arith, refl)

  ask_cases :
      (r : Result Reply) (w : W)
      → let a = (try continue r read_status except λ e. pure false) w in
        (IsPong r × (a.0 ≡ ok true)) ⊎ ((¬ IsPong r) × (a.0 ≡ ok false))
  ask_cases (ok r) w = read_status_cases (get_field r "status") w
  ask_cases (err e) w = inr (λ p. p, refl)

  -- A ping never raises: it reports a node as alive if the backend answered with the status "pong",
  -- and as dead if it did not: after an error of the transport, another status, a missing one and an
  -- answer that is no object.
  pub ping_one-alive_iff :
      (b : Backend) (t i : ℕ) (w : W)
      → let r = (send_command b (ping i t) w).0 in
        (IsPong r × ((ping_one b t i w).0 ≡ ok true))
        ⊎ ((¬ IsPong r) × ((ping_one b t i w).0 ≡ ok false))
  unfolding ping_one
  ping_one-alive_iff b t i w = let (r, w') = send_command b (ping i t) w in ask_cases r w'
