-- ===== src/ExUtils/Clipping.antt =====
-- What clipping keeps and what it takes away, whatever the arithmetic of floats does.
use fcpp_bridge.Prelude.{
  ℕ, zero, suc, ◌*◌, ◌^◌, ◌≤◌, ap, ◌∙◌, subst, true, false, List, [], ◌∷◌, ◌≡◌, refl, arith, length,
  length-append, All,
}
use native.Mathlib.Numerals.{unary_clauses}
use fcpp_bridge.ExUtils.Tiles.{
  Floats, Point, Polygon, last_of, edges_from, inside, clip_vertex, clip_vertices, clip_edge,
  clip_edges, clip_polygon_to_polygon,
}

last_of-All {ℓ κ} :
    {A : Type ℓ} (P : A → Type κ) (p : A) (ps : List A) → P p → All P ps → P (last_of p ps)
unfolding last_of
last_of-All P p [] h k = h
last_of-All P p (q ∷ ps) h k = last_of-All P q ps k.0 k.1

mul_le : (n b c : ℕ) → b ≤ c → n * b ≤ n * c
mul_le zero b c h = omega arith
mul_le (suc n) b c h = omega (arith, mul_le n b c h)

grow : (n a b c : ℕ) → a ≤ n * b → b ≤ 2 * c → a ≤ 2 * n * c
grow n a b c h k = grind (arith, mul_le n b (2 * c) k)

pow_suc : (n : ℕ) → 2 * 2 ^ n ≡ 2 ^ suc n
pow_suc n = simp unary_clauses (omega arith)

module _ {F : Type 0} (o : Floats F) where
  abbrev pub IsInside : Point F × Point F → Point F → Type 0
  IsInside edge p = inside o p edge ≡ true

  abbrev pub IsOutside : Point F × Point F → Point F → Type 0
  IsOutside edge p = inside o p edge ≡ false

  vertices_inside :
      (edge : Point F × Point F) (q : Point F) (ps : Polygon F)
      → IsInside edge q
      → All (IsInside edge) ps
      → clip_vertices o edge q ps ≡ ps
  unfolding clip_vertices clip_vertex
  vertices_inside edge q [] h k = refl
  vertices_inside edge q (p ∷ ps) h k = ground (arith, k.0, vertices_inside edge p ps k.0 k.1)

  vertices_outside :
      (edge : Point F × Point F) (q : Point F) (ps : Polygon F)
      → IsOutside edge q
      → All (IsOutside edge) ps
      → clip_vertices o edge q ps ≡ []
  unfolding clip_vertices clip_vertex
  vertices_outside edge q [] h k = refl
  vertices_outside edge q (p ∷ ps) h k = ground (arith, k.0, vertices_outside edge p ps k.0 k.1)

  edge_inside :
      (edge : Point F × Point F) (ps : Polygon F)
      → All (IsInside edge) ps
      → clip_edge o edge ps ≡ ps
  unfolding clip_edge
  edge_inside edge [] k = refl
  edge_inside edge (p ∷ ps) k =
      vertices_inside edge (last_of p ps) (p ∷ ps) (last_of-All (IsInside edge) p ps k.0 k.1) k

  pub edge_outside :
      (edge : Point F × Point F) (ps : Polygon F)
      → All (IsOutside edge) ps
      → clip_edge o edge ps ≡ []
  unfolding clip_edge
  edge_outside edge [] k = refl
  edge_outside edge (p ∷ ps) k =
      vertices_outside edge (last_of p ps) (p ∷ ps) (last_of-All (IsOutside edge) p ps k.0 k.1) k

  edges_inside :
      (edges : List (Point F × Point F)) (ps : Polygon F)
      → All (λ edge. All (IsInside edge) ps) edges
      → clip_edges o edges ps ≡ ps
  unfolding clip_edges
  edges_inside [] ps k = refl
  edges_inside (edge ∷ edges) ps k = rw (edge_inside edge ps k.0) (edges_inside edges ps k.1)

  edges_empty : (edges : List (Point F × Point F)) → clip_edges o edges [] ≡ []
  unfolding clip_edges clip_edge
  edges_empty [] = refl
  edges_empty (edge ∷ edges) = edges_empty edges

  -- A polygon whose vertices are on the inner side of every edge of the clip polygon is kept as it is.
  pub clip_polygon_to_polygon-inside :
      (p : Point F) (ps subject : Polygon F)
      → All (λ edge. All (IsInside edge) subject) (edges_from p p ps)
      → clip_polygon_to_polygon o subject (p ∷ ps) ≡ subject
  unfolding clip_polygon_to_polygon
  clip_polygon_to_polygon-inside p ps subject k = edges_inside (edges_from p p ps) subject k

  -- A polygon whose vertices are on the outer side of the first edge is clipped to nothing.
  pub clip_polygon_to_polygon-outside :
      (p q : Point F) (ps subject : Polygon F)
      → All (IsOutside (p, q)) subject
      → clip_polygon_to_polygon o subject (p ∷ q ∷ ps) ≡ []
  unfolding clip_polygon_to_polygon clip_edges edges_from
  clip_polygon_to_polygon-outside p q ps subject k =
      ap (clip_edges o (edges_from p q ps)) (edge_outside (p, q) subject k)
      ∙ edges_empty (edges_from p q ps)

  length-vertex : (edge : Point F × Point F) (q p : Point F) → length (clip_vertex o edge q p) ≤ 2
  unfolding clip_vertex
  length-vertex edge q p = ground arith

  length-vertices :
      (edge : Point F × Point F) (q : Point F) (ps : Polygon F)
      → length (clip_vertices o edge q ps) ≤ 2 * length ps
  unfolding clip_vertices
  length-vertices edge q [] = omega arith
  length-vertices edge q (p ∷ ps) = omega (
    arith,
    length-append (clip_vertex o edge q p) (clip_vertices o edge p ps),
    length-vertex edge q p,
    length-vertices edge p ps,
  )

  length-edge :
      (edge : Point F × Point F) (ps : Polygon F) → length (clip_edge o edge ps) ≤ 2 * length ps
  unfolding clip_edge
  length-edge edge [] = omega arith
  length-edge edge (p ∷ ps) = length-vertices edge (last_of p ps) (p ∷ ps)

  length-edges :
      (edges : List (Point F × Point F)) (ps : Polygon F)
      → length (clip_edges o edges ps) ≤ 2 ^ length edges * length ps
  unfolding clip_edges
  length-edges [] ps = omega arith
  length-edges (edge ∷ edges) ps =
      let h = length-edges edges (clip_edge o edge ps) in
      let k = length-edge edge ps in
      subst (λ n. length (clip_edges o edges (clip_edge o edge ps)) ≤ n * length ps)
        (pow_suc (length edges))
        (grow (2 ^ length edges) (length (clip_edges o edges (clip_edge o edge ps)))
          (length (clip_edge o edge ps)) (length ps) h k)

  length-edges_from :
      (first p : Point F) (ps : Polygon F) → length (edges_from first p ps) ≡ suc (length ps)
  unfolding edges_from
  length-edges_from first p [] = refl
  length-edges_from first p (q ∷ ps) = ap suc (length-edges_from first q ps)

  -- Each edge of the clip polygon at most doubles the number of vertices.
  pub length-clip_polygon_to_polygon :
      (clip subject : Polygon F)
      → length (clip_polygon_to_polygon o subject clip) ≤ 2 ^ length clip * length subject
  unfolding clip_polygon_to_polygon
  length-clip_polygon_to_polygon [] subject = omega arith
  length-clip_polygon_to_polygon (p ∷ ps) subject =
      subst (λ n. length (clip_edges o (edges_from p p ps) subject) ≤ 2 ^ n * length subject)
        (length-edges_from p p ps) (length-edges (edges_from p p ps) subject)
