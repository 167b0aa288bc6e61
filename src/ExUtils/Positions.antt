-- ===== src/ExUtils/Positions.antt =====
-- The positions of nodes (examples/ex_utils/position.py): the grid. A float is an element of the
-- parameter `F`; the roundings of `math.ceil` are parameters too. The number of nodes is not negative.
pub mod Random
use fcpp_bridge.Prelude.{
  ℕ, zero, suc, ◌+◌, ◌-◌, ◌*◌, ◌≤◌, ◌<◌, Bool, true, false, ◌||◌, List, [], ◌∷◌, ◌++◌, ◌≡◌, refl,
  arith, leb, ltb, nat_eqb, nat_key, length, Bool-cases, inl, inr, if◌then◌else◌,
}
use fcpp_bridge.Prelude.Dict.{Dict, has, insert, keys, keys-insert}
use fcpp_bridge.Prelude.IdSet.{contains, contains-append}
use fcpp_bridge.Ipc.Exec.{Result, ok, err, zero_division_error}
use fcpp_bridge.ExUtils.Tiles.{Floats, Area, Point}

pub record Rounding (F : Type 0) : Type 0 where
  -- an int as a float, math.ceil(math.sqrt(n)), math.ceil(n / k)
  pub of_int : ℕ → F
  pub ceil_sqrt : ℕ → ℕ
  pub ceil_ratio : ℕ → ℕ → ℕ

module _ {F : Type 0} (o : Floats F) (r : Rounding F) where
  -- lo + (hi - lo) * i / max(total - 1, 1)
  unfoldable pub coordinate : F → F → ℕ → ℕ → F
  coordinate lo hi total i =
      let steps = if leb 1 (total - 1) then total - 1 else 1 in
      o.plus lo (o.divide (o.times (o.minus hi lo) (r.of_int i)) (r.of_int steps))

  -- The coordinates of the lines `first`, …, of which `count` are left
  unfoldable pub coordinates_from : F → F → ℕ → ℕ → ℕ → List F
  coordinates_from lo hi total first zero = []
  coordinates_from lo hi total first (suc count) =
      coordinate lo hi total first ∷ coordinates_from lo hi total (first + 1) count

module _ {F : Type 0} where
  -- The inner loop, from `nid` on
  unfoldable pub seat_row : Bool → ℕ → F → List F → ℕ × Dict ℕ (Point F) → ℕ × Dict ℕ (Point F)
  seat_row row_major n a [] (nid, positions) = (nid, positions)
  seat_row row_major n a (b ∷ bs) (nid, positions) = elim (leb n nid) [
    | true ↦ (nid, positions)
    | false ↦
        seat_row row_major n a bs
          (nid + 1, insert nid (if row_major then (b, a) else (a, b)) positions)
  ]

  -- The outer loop
  unfoldable pub seat_rows :
      Bool → ℕ → List F → List F → ℕ × Dict ℕ (Point F) → ℕ × Dict ℕ (Point F)
  unfolding seat_row
  seat_rows row_major n [] inner s = s
  seat_rows row_major n (a ∷ outer) inner s =
      seat_rows row_major n outer inner (seat_row row_major n a inner s)

module _ {F : Type 0} (o : Floats F) (r : Rounding F) where
  -- grid_in_area(n, area, row_major=…); without a column the ratio is a division by zero.
  unfoldable pub grid_in_area : ℕ → Area F → Bool → Result (Dict ℕ (Point F))
  unfolding coordinates_from seat_rows
  grid_in_area n area row_major =
      let cols = r.ceil_sqrt n in
      let rows = r.ceil_ratio n cols in
      let xs = coordinates_from o r area.xmin area.xmax cols 0 cols in
      let ys = coordinates_from o r area.ymin area.ymax rows 0 rows in
      if nat_eqb cols 0
      then err zero_division_error
      else ok
          (if row_major then seat_rows true n ys xs (0, []) else seat_rows false n xs ys (0, [])).1

-- The numbers below `n` in order
unfoldable pub count_up : ℕ → List ℕ
count_up zero = []
count_up (suc n) = count_up n ++ n ∷ []

contains-count_up : (n i : ℕ) → contains (count_up n) i ≡ ltb i n
unfolding contains count_up
contains-count_up zero i = ground arith
contains-count_up (suc n) i =
    ground (arith, contains-append (count_up n) (n ∷ []) i, contains-count_up n i)

contains-keys : {A : Type 0} (i : ℕ) (d : Dict ℕ A) → contains (keys d) i ≡ has i d
unfolding contains has
contains-keys i [] = refl
contains-keys i ((j, v) ∷ d) = ground (arith, contains-keys i d)

-- A new number goes to the end.
pub insert-count_up :
    {A : Type 0} (k : ℕ) (v : A) (d : Dict ℕ A)
    → keys d ≡ count_up k
    → keys (insert k v d) ≡ count_up (k + 1)
unfolding count_up
insert-count_up k v d h =
    ground (arith, keys-insert k v d, contains-keys k d, contains-count_up k k)

-- After `m` cells, the first `m` nodes have positions, or all `n`.
record Seated {F : Type 0} (n m : ℕ) (s : ℕ × Dict ℕ (Point F)) : Type 0 where
  next : s.0 ≡ (if leb m n then m else n)
  ids : keys s.1 ≡ count_up s.0

nobody-Seated : {F : Type 0} {n : ℕ} → Seated {F = F} n 0 (0, [])
unfolding count_up
nobody-Seated = record { next = ground arith; ids = refl }

seat_row-Seated :
    {F : Type 0} (row_major : Bool) (n m : ℕ) (a : F) (bs : List F) (s : ℕ × Dict ℕ (Point F))
    → Seated n m s
    → Seated n (m + length bs) (seat_row row_major n a bs s)
unfolding seat_row
seat_row-Seated row_major n m a [] (nid, d) h = record {
  next = ground (arith, h.next);
  ids = h.ids;
}
seat_row-Seated {F} row_major n m a (b ∷ bs) (nid, d) h = elim (Bool-cases (leb n nid)) [
  | inl e ↦ record { next = ground (arith, e, h.next); ids = ground (arith, e, h.ids) }
  | inr e ↦
      let p : Point F = if row_major then (b, a) else (a, b) in
      let seated : Seated n (m + 1) (nid + 1, insert nid p d) = record {
        next = ground (arith, e, h.next);
        ids = insert-count_up nid p d h.ids;
      } in
      let k = seat_row-Seated row_major n (m + 1) a bs (nid + 1, insert nid p d) seated in
      record { next = ground (arith, e, k.next); ids = ground (arith, e, k.ids) }
]

seat_rows-Seated :
    {F : Type 0} (row_major : Bool) (n m : ℕ) (outer inner : List F) (s : ℕ × Dict ℕ (Point F))
    → Seated n m s
    → Seated n (m + length outer * length inner) (seat_rows row_major n outer inner s)
unfolding seat_rows
seat_rows-Seated row_major n m [] inner s h = record { next = ground (arith, h.next); ids = h.ids }
seat_rows-Seated row_major n m (a ∷ outer) inner s h =
    let row = seat_row-Seated row_major n m a inner s h in
    let k =
      seat_rows-Seated row_major n (m + length inner) outer inner (seat_row row_major n a inner s)
        row in
    record { next = ground (arith, k.next); ids = k.ids }

module _ {F : Type 0} (o : Floats F) (r : Rounding F) where
  length-coordinates_from :
      (lo hi : F) (total first count : ℕ)
      → length (coordinates_from o r lo hi total first count) ≡ count
  unfolding coordinates_from
  length-coordinates_from lo hi total first zero = refl
  length-coordinates_from lo hi total first (suc count) =
      ground (arith, length-coordinates_from lo hi total (first + 1) count)

  -- The grid has a position for each node from 0 to `n - 1`, in order, and for no other, in either
  -- direction, where the rounded root has columns and the rounded ratio has rows enough for the nodes.
  pub grid_in_area-keys :
      (n : ℕ) (area : Area F) (row_major : Bool)
      → 1 ≤ r.ceil_sqrt n
      → n ≤ r.ceil_ratio n (r.ceil_sqrt n) * r.ceil_sqrt n
      → (d : Dict ℕ (Point F)) × (grid_in_area o r n area row_major ≡ ok d) × (keys d ≡ count_up n)
  unfolding grid_in_area
  grid_in_area-keys n area true c e =
      let cols = r.ceil_sqrt n in
      let rows = r.ceil_ratio n cols in
      let xs = coordinates_from o r area.xmin area.xmax cols 0 cols in
      let ys = coordinates_from o r area.ymin area.ymax rows 0 rows in
      let seated = seat_rows-Seated true n 0 ys xs (0, []) nobody-Seated in
      let width = length-coordinates_from area.xmin area.xmax cols 0 cols in
      let height = length-coordinates_from area.ymin area.ymax rows 0 rows in
      let cells : length ys * length xs ≡ rows * cols = cc (width, height) in
      (
        (seat_rows true n ys xs (0, [])).1,
        ground (arith, c),
        ground (arith, seated.next, seated.ids, cells),
      )
  grid_in_area-keys n area false c e =
      let cols = r.ceil_sqrt n in
      let rows = r.ceil_ratio n cols in
      let xs = coordinates_from o r area.xmin area.xmax cols 0 cols in
      let ys = coordinates_from o r area.ymin area.ymax rows 0 rows in
      let seated = seat_rows-Seated false n 0 xs ys (0, []) nobody-Seated in
      let width = length-coordinates_from area.xmin area.xmax cols 0 cols in
      let height = length-coordinates_from area.ymin area.ymax rows 0 rows in
      let cells : length xs * length ys ≡ cols * rows = cc (width, height) in
      (
        (seat_rows false n xs ys (0, [])).1,
        ground (arith, c),
        ground (arith, seated.next, seated.ids, cells),
      )
