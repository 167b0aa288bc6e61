-- ===== src/ExUtils/Positions/Random.antt =====
-- Random positions (examples/ex_utils/position.py): `rnd_in_area`. The generator of random numbers is a
-- parameter: its state `R` and `uniform`, with the test `>` on floats.
use fcpp_bridge.Prelude.{
  ℕ, zero, suc, ◌+◌, Bool, true, false, not, ◌||◌, List, [], ◌∷◌, ◌≡◌, refl, arith, ltb, ◌-◌, ◌≤◌,
  nat_eqb, All, Bool-cases, inl, inr, nat_key, length, take, subst, if◌then◌else◌,
}
use fcpp_bridge.Prelude.Dict.{Dict, insert, keys}
use fcpp_bridge.Ipc.Exec.{Result, ok, err, value_error}
use fcpp_bridge.Metrics.{drop}
use fcpp_bridge.ExUtils.Positions.{count_up, insert-count_up}

pub record Generator (F R : Type 0) : Type 0 where
  pub uniform : F → F → R → F × R
  pub exceeds : F → F → Bool

-- len(area) % 2 == 0 and len(area) // 2
unfoldable pub is_even : ℕ → Bool
is_even zero = true
is_even (suc n) = not (is_even n)

unfoldable pub half : ℕ → ℕ
half zero = 0
half (suc zero) = 0
half (suc (suc n)) = half n + 1

zero_plus : (n : ℕ) → 0 + n ≡ n
zero_plus n = omega arith

-- A guarded value that comes out passed both guards.
guarded_value :
    {A : Type 0} (b c : Bool) {v d : A}
    → (if b then err value_error else if c then err value_error else ok v) ≡ ok d
    → (b ≡ false) × (c ≡ false) × (v ≡ d)
guarded_value b c e = (ground arith, ground arith, ground arith)

not-not : (b : Bool) → not (not b) ≡ true → b ≡ true
not-not true h = refl
not-not false h = h

twice_half : (n : ℕ) → is_even n ≡ true → half n + half n ≡ n
unfolding is_even half
twice_half zero h = refl
twice_half (suc zero) h = absurd (ground arith)
twice_half (suc (suc n)) h = omega (arith, twice_half n (not-not (is_even n) h))

length-take : {A : Type 0} (n : ℕ) (xs : List A) → n ≤ length xs → length (take n xs) ≡ n
length-take zero xs h = refl
length-take (suc n) [] h = absurd (omega arith)
length-take (suc n) (x ∷ xs) h = ground (arith, length-take n xs)

length-drop : {A : Type 0} (n : ℕ) (xs : List A) → length (drop n xs) ≡ length xs - n
unfolding drop
length-drop zero xs = omega arith
length-drop (suc n) [] = omega arith
length-drop (suc n) (x ∷ xs) = ground (arith, length-drop n xs)

insert-All :
    {A : Type 0} (P : ℕ × A → Type 0) (k : ℕ) (v : A) (d : Dict ℕ A)
    → ((i : ℕ) → P (i, v))
    → All P d
    → All P (insert k v d)
unfolding insert
insert-All P k v [] p h = (p k, tt)
insert-All P k v ((j, u) ∷ d) p h = elim (Bool-cases (nat_eqb j k)) [
  | inl e ↦ rw e (p j, h.1)
  | inr e ↦ rw e (h.0, insert-All P k v d p h.1)
]

module _ {F R : Type 0} (g : Generator F R) where
  -- Is a lower bound above its upper bound?
  unfoldable pub any_exceeds : List F → List F → Bool
  any_exceeds [] his = false
  any_exceeds (lo ∷ los) [] = false
  any_exceeds (lo ∷ los) (hi ∷ his) = g.exceeds lo hi || any_exceeds los his

  unfoldable pub draw_point : List F → List F → R → List F × R
  draw_point [] his w = ([], w)
  draw_point (lo ∷ los) [] w = ([], w)
  draw_point (lo ∷ los) (hi ∷ his) w =
      let (x, w') = g.uniform lo hi w in let (xs, w'') = draw_point los his w' in (x ∷ xs, w'')

  -- The dict comprehension, with the nodes from `i` on
  unfoldable pub draw_points : List F → List F → ℕ → ℕ → Dict ℕ (List F) → R → Dict ℕ (List F)
  unfolding draw_point
  draw_points los his i zero d w = d
  draw_points los his i (suc n) d w =
      let (p, w') = draw_point los his w in draw_points los his (i + 1) n (insert i p d) w'

  -- rnd_in_area(n, area, seed=…), with the generator that the seed makes
  unfoldable pub rnd_in_area : ℕ → List F → R → Result (Dict ℕ (List F))
  unfolding draw_points any_exceeds is_even half drop
  rnd_in_area n area w =
      let los = take (half (length area)) area in
      let his = drop (half (length area)) area in
      if ltb (length area) 2 || not (is_even (length area))
      then err value_error
      else if any_exceeds los his
      then err value_error
      else ok (draw_points los his 0 n [] w)

  -- The point has one coordinate for each dimension, none below its lower and none above its upper
  -- bound.
  unfoldable pub InBox : List F → List F → List F → Type 0
  InBox [] [] [] = Unit
  InBox (lo ∷ los) (hi ∷ his) (x ∷ xs) =
      (g.exceeds lo x ≡ false) × (g.exceeds x hi ≡ false) × InBox los his xs
  InBox los his xs = ⊥

  module _
      (within : (lo hi : F) (w : R)
        → g.exceeds lo hi ≡ false
        → (g.exceeds lo (g.uniform lo hi w).0 ≡ false)
          × (g.exceeds (g.uniform lo hi w).0 hi ≡ false)) where
    draw_point-InBox :
        (los his : List F) (w : R)
        → length los ≡ length his
        → any_exceeds los his ≡ false
        → InBox los his (draw_point los his w).0
    unfolding draw_point any_exceeds InBox
    draw_point-InBox [] [] w l h = tt
    draw_point-InBox [] (hi ∷ his) w l h = absurd (omega arith)
    draw_point-InBox (lo ∷ los) [] w l h = absurd (omega arith)
    draw_point-InBox (lo ∷ los) (hi ∷ his) w l h =
        let (x, w') = g.uniform lo hi w in
        let b = within lo hi w (ground arith) in
        (b.0, b.1, draw_point-InBox los his w' (omega arith) (ground arith))

    draw_points-InBox :
        (los his : List F) (i n : ℕ) (d : Dict ℕ (List F)) (w : R)
        → length los ≡ length his
        → any_exceeds los his ≡ false
        → All (λ e. InBox los his e.1) d
        → All (λ e. InBox los his e.1) (draw_points los his i n d w)
    unfolding draw_points
    draw_points-InBox los his i zero d w l h a = a
    draw_points-InBox los his i (suc n) d w l h a =
        let (p, w') = draw_point los his w in
        draw_points-InBox los his (i + 1) n (insert i p d) w' l h
          (insert-All (λ e. InBox los his e.1) i p d (λ k. draw_point-InBox los his w l h) a)

  draw_points-keys :
      (los his : List F) (i n : ℕ) (d : Dict ℕ (List F)) (w : R)
      → keys d ≡ count_up i
      → keys (draw_points los his i n d w) ≡ count_up (i + n)
  unfolding draw_points
  draw_points-keys los his i zero d w h = ground (arith, h)
  draw_points-keys los his i (suc n) d w h =
      let drawn = draw_point los his w in
      let k =
        draw_points-keys los his (i + 1) n (insert i drawn.0 d) drawn.1
          (insert-count_up i drawn.0 d h) in
      ground (arith, k)

  -- In an area that is not refused, the nodes from 0 to `n - 1` get positions, in order, and no other
  -- node does; each position has one coordinate for each dimension of the area, between its bounds,
  -- where `uniform` draws between the bounds it is given, if they are in order.
  pub rnd_in_area-InBox :
      ((lo hi : F) (w : R)
        → g.exceeds lo hi ≡ false
        → (g.exceeds lo (g.uniform lo hi w).0 ≡ false)
          × (g.exceeds (g.uniform lo hi w).0 hi ≡ false))
      → (n : ℕ) (area : List F) (w : R) {d : Dict ℕ (List F)} → rnd_in_area n area w ≡ ok d
      → (keys d ≡ count_up n)
        × All (λ e. InBox (take (half (length area)) area) (drop (half (length area)) area) e.1) d
  unfolding rnd_in_area count_up
  rnd_in_area-InBox within n area w e =
      let dim = half (length area) in
      let los = take dim area in
      let his = drop dim area in
      let refused = ltb (length area) 2 || not (is_even (length area)) in
      let passed = guarded_value refused (any_exceeds los his) e in
      let even : is_even (length area) ≡ true = ground (arith, passed.0) in
      let sum = twice_half (length area) even in
      let same : length los ≡ length his =
        omega (arith, sum, length-take dim area (omega (arith, sum)), length-drop dim area) in
      subst (λ x. (keys x ≡ count_up n) × All (λ p. InBox los his p.1) x) passed.2
        (
          subst (λ k. keys (draw_points los his 0 n [] w) ≡ count_up k) (zero_plus n)
              (draw_points-keys los his 0 n [] w refl),
          draw_points-InBox within los his 0 n [] w same passed.1 tt,
        )
