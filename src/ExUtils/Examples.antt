-- ===== src/ExUtils/Examples.antt =====
-- Clipping with integers, and neighbours on a line.
use fcpp_bridge.Prelude.Dict.{insert}
use fcpp_bridge.ExUtils.Storage.{filter_neighbors, is_coprime_neighbor}
use fcpp_bridge.Prelude.Dict.{Dict, keys, has, lookup}
use fcpp_bridge.ExUtils.Tiles.{
  clip_edge, clip_edges, clip_vertex, clip_vertices, edges_from, inside, last_of,
}
use fcpp_bridge.Prelude.{
  All, List, ℕ, ◌+◌, ◌-◌, ◌*◌, Bool, true, [], ◌∷◌, ◌≡◌, ◌↔◌, refl, leb, ltb, nat_eqb, nat_key,
  arith,
}
use fcpp_bridge.Prelude.IdSet.{contains}
use fcpp_bridge.ExUtils.Tiles.{Area, Floats, Point, Polygon, clip_polygon_to_polygon}
use fcpp_bridge.ExUtils.Positions.{Rounding, grid_in_area, count_up, grid_in_area-keys}
use fcpp_bridge.ExUtils.Positions.Random.{Generator, InBox, rnd_in_area, rnd_in_area-InBox}
use fcpp_bridge.Ipc.Exec.{ok}
use fcpp_bridge.ExUtils.Storage.{
  Positions, coprime_neighbors, IsCoprimeNeighbor, coprime_neighbors_iff,
}

-- (a, b) stands for a - b.
abbrev integers : Floats (ℕ × ℕ)
integers = record {
  plus = λ x y. (x.0 + y.0, x.1 + y.1);
  minus = λ x y. (x.0 + y.1, x.1 + y.0);
  times = λ x y. (x.0 * y.0 + x.1 * y.1, x.0 * y.1 + x.1 * y.0);
  divide = λ x y. x;
  is_nonnegative = λ x. leb x.1 x.0;
  is_tiny = λ x. nat_eqb x.0 x.1;
  half = λ x. x;
}

abbrev point : ℕ → ℕ → Point (ℕ × ℕ)
point x y = ((x, 0), (y, 0))

abbrev triangle : Polygon (ℕ × ℕ)
triangle = point 1 1 ∷ point 2 1 ∷ point 2 2 ∷ []

abbrev square : Polygon (ℕ × ℕ)
square = point 0 0 ∷ point 3 0 ∷ point 3 3 ∷ point 0 3 ∷ []

-- With the clip polygon in clockwise order nothing is left.
clockwise_clips_all :
    clip_polygon_to_polygon integers triangle (point 0 0 ∷ point 0 3 ∷ point 3 3 ∷ point 3 0 ∷ [])
    ≡ []
unfolding clip_polygon_to_polygon clip_edges edges_from clip_edge clip_vertices clip_vertex inside
    last_of
clockwise_clips_all = refl

abbrev near : ℕ → ℕ → Bool
near p q = leb (p - q + (q - p)) 2

-- gcd on the ids 2 and 3 of this example
abbrev small_gcd : ℕ → ℕ → ℕ
small_gcd a b = 1

abbrev line : Positions ℕ
line = (2, 0) ∷ (3, 1) ∷ []

coprime_neighbors_iff_example :
    (contains (3 ∷ []) 3 ≡ true) ↔ IsCoprimeNeighbor near small_gcd line 2 3
unfolding has coprime_neighbors lookup filter_neighbors is_coprime_neighbor
coprime_neighbors_iff_example =
    coprime_neighbors_iff near small_gcd 2 3 line (refl, (refl, tt)) refl

-- The root of 5, rounded up, is 3; two rows of three cells seat five nodes.
abbrev rounding : Rounding (ℕ × ℕ)
rounding = record { of_int = λ n. (n, 0); ceil_sqrt = λ n. 3; ceil_ratio = λ n k. 2 }

abbrev area : Area (ℕ × ℕ)
area = record { xmin = (0, 0); ymin = (0, 0); xmax = (6, 0); ymax = (1, 0) }

grid_in_area-keys_example :
    (d : Dict ℕ (Point (ℕ × ℕ))) × (grid_in_area integers rounding 5 area true ≡ ok d)
    × (keys d ≡ count_up 5)
grid_in_area-keys_example =
    grid_in_area-keys integers rounding 5 area true (ground arith) (ground arith)

-- Draws that are always the lower bound
abbrev lower : Generator ℕ ℕ
lower = record { uniform = λ lo hi w. (lo, w + 1); exceeds = λ lo hi. ltb hi lo }

-- the lines 1 to 3 and 2 to 4, and two draws for each of two nodes
abbrev drawn : Dict ℕ (List ℕ)
drawn = (0, 1 ∷ 2 ∷ []) ∷ (1, 1 ∷ 2 ∷ []) ∷ []

rnd_in_area-InBox_example :
    (keys drawn ≡ count_up 2) × All (λ e. InBox lower (1 ∷ 2 ∷ []) (3 ∷ 4 ∷ []) e.1) drawn
unfolding rnd_in_area insert
rnd_in_area-InBox_example =
    rnd_in_area-InBox lower (λ lo hi w h. (ground arith, h)) 2 (1 ∷ 2 ∷ 3 ∷ 4 ∷ []) 0 {d = drawn}
      refl
