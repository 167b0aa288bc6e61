-- ===== src/ExUtils/Tiles.antt =====
-- The clipping of polygons and the shapes of tiles (examples/ex_utils/tiles.py). A float is an element
-- of the parameter `F`, with Python's operations on floats as they are.
use fcpp_bridge.Prelude.{Bool, Option, none, some, List, [], ◌∷◌, ◌++◌, if◌then◌else◌}

pub record Floats (F : Type 0) : Type 0 where
  pub plus : F → F → F
  pub minus : F → F → F
  pub times : F → F → F
  pub divide : F → F → F
  -- 0.0 <= x, and abs(x) < 1e-12
  pub is_nonnegative : F → Bool
  pub is_tiny : F → Bool
  -- x / 2.0
  pub half : F → F

abbrev pub Point : Type 0 → Type 0
Point F = F × F

abbrev pub Polygon : Type 0 → Type 0
Polygon F = List (F × F)

-- (xmin, ymin, xmax, ymax)
pub record Area (F : Type 0) : Type 0 where
  pub xmin : F
  pub ymin : F
  pub xmax : F
  pub ymax : F

-- p[-1] of the list p ∷ ps
unfoldable pub last_of {ℓ} : {A : Type ℓ} → A → List A → A
last_of p [] = p
last_of p (q ∷ ps) = last_of q ps

-- The pairs (clip[i], clip[(i + 1) % n]) of the list that goes on with `ps` after `p`
unfoldable pub edges_from {ℓ} : {A : Type ℓ} → A → A → List A → List (A × A)
edges_from first p [] = (p, first) ∷ []
edges_from first p (q ∷ ps) = (p, q) ∷ edges_from first q ps

module _ {F : Type 0} (o : Floats F) where
  -- _inside
  unfoldable pub inside : Point F → Point F × Point F → Bool
  inside (x, y) ((sx, sy), (tx, ty)) =
      let ex = o.minus tx sx in
      let ey = o.minus ty sy in
      let px = o.minus x sx in
      let py = o.minus y sy in o.is_nonnegative (o.minus (o.times ex py) (o.times ey px))

  -- _line_intersection
  unfoldable pub line_intersection : Point F → Point F → Point F × Point F → Option (Point F)
  line_intersection (x1, y1) (x2, y2) ((x3, y3), (x4, y4)) =
      let denom =
        o.minus (o.times (o.minus x1 x2) (o.minus y3 y4))
          (o.times (o.minus y1 y2) (o.minus x3 x4)) in
      if o.is_tiny denom
      then none
      else let t =
          o.divide
            (o.minus (o.times (o.minus x1 x3) (o.minus y3 y4))
              (o.times (o.minus y1 y3) (o.minus x3 x4)))
            denom in
        some (o.plus x1 (o.times t (o.minus x2 x1)), o.plus y1 (o.times t (o.minus y2 y1)))

  abbrev pub crossing : Option (Point F) → Polygon F
  crossing none = []
  crossing (some pt) = pt ∷ []

  -- One round of the inner loop: what it adds to `output`
  unfoldable pub clip_vertex : Point F × Point F → Point F → Point F → Polygon F
  clip_vertex edge previous current =
      if inside current edge
      then (if inside previous edge
          then current ∷ []
          else crossing (line_intersection previous current edge) ++ current ∷ [])
      else if inside previous edge
      then crossing (line_intersection previous current edge)
      else []

  -- The inner loop; `previous` is the vertex before the list.
  unfoldable pub clip_vertices : Point F × Point F → Point F → Polygon F → Polygon F
  clip_vertices edge previous [] = []
  clip_vertices edge previous (current ∷ rest) =
      clip_vertex edge previous current ++ clip_vertices edge current rest

  -- One round of the outer loop; input_list[-1] comes before the first vertex.
  unfoldable pub clip_edge : Point F × Point F → Polygon F → Polygon F
  clip_edge edge [] = []
  clip_edge edge (p ∷ ps) = clip_vertices edge (last_of p ps) (p ∷ ps)

  unfoldable pub clip_edges : List (Point F × Point F) → Polygon F → Polygon F
  clip_edges [] output = output
  clip_edges (edge ∷ edges) output = clip_edges edges (clip_edge edge output)

  unfoldable pub clip_polygon_to_polygon : Polygon F → Polygon F → Polygon F
  clip_polygon_to_polygon subject [] = []
  clip_polygon_to_polygon subject (p ∷ ps) = clip_edges (edges_from p p ps) subject

  unfoldable pub clip_rect_to_rect : Polygon F → Area F → Polygon F
  clip_rect_to_rect inner a =
      clip_polygon_to_polygon inner
        ((a.xmin, a.ymin) ∷ (a.xmax, a.ymin) ∷ (a.xmax, a.ymax) ∷ (a.xmin, a.ymax) ∷ [])

  -- clipped if clipped else square
  abbrev pub or_square : Polygon F → Polygon F → Polygon F
  or_square [] square = square
  or_square (p ∷ ps) square = p ∷ ps

  -- The polygon of one tile in compute_tile_shapes
  unfoldable pub tile_shape : Point F → Area F → F → Polygon F
  tile_shape (cx, cy) area cell_size =
      let half = o.half cell_size in
      let square : Polygon F =
        (o.minus cx half, o.minus cy half)
        ∷ (o.plus cx half, o.minus cy half)
        ∷ (o.plus cx half, o.plus cy half)
        ∷ (o.minus cx half, o.plus cy half)
        ∷ [] in
      or_square (clip_rect_to_rect square area) square
