-- ===== src/ExUtils/Storage.antt =====
-- The coprime neighbours of a node (examples/ex_utils/storage.py). `math.dist(p, q) <= comm` and
-- `math.gcd` are parameters.
use fcpp_bridge.Prelude.{
  ℕ, String, Bool, false, not, ◌&&◌, Option, none, some, List, [], ◌∷◌, ◌≡◌, ◌≢◌, ◌↔◌, true, refl,
  arith, nat_key, string_key, nat_eqb, nat_eqb_iff, Option-cases, inl, inr, if◌then◌else◌,
}
use fcpp_bridge.Prelude.Dict.{Dict, IsDict, lookup, insert, has}
use fcpp_bridge.Prelude.IdSet.{contains}
use fcpp_bridge.Ipc.Exec.{Result, ok, err, key_error}

abbrev pub Positions : Type 0 → Type 0
Positions P = Dict ℕ P

module _ {P : Type 0} (within : P → P → Bool) (gcd : ℕ → ℕ → ℕ) where
  -- The condition of the comprehension for an entry of `positions`
  unfoldable pub is_coprime_neighbor : ℕ → P → ℕ → P → Bool
  is_coprime_neighbor nid p j q = not (nat_eqb j nid) && (within p q && nat_eqb (gcd nid j) 1)

  unfoldable pub filter_neighbors : ℕ → P → Positions P → List ℕ
  filter_neighbors nid p [] = []
  filter_neighbors nid p ((j, q) ∷ d) =
      if is_coprime_neighbor nid p j q
      then j ∷ filter_neighbors nid p d
      else filter_neighbors nid p d

  -- _coprime_neighbors
  unfoldable pub coprime_neighbors : ℕ → Positions P → Result (List ℕ)
  coprime_neighbors nid positions = elim (lookup nid positions) [
    | none ↦ err key_error
    | some p ↦ ok (filter_neighbors nid p positions)
  ]

  -- spread_data_coprime_id, with what is written before an id without a position raises
  unfoldable pub spread_data_coprime_id :
      String
      → Positions P
      → Dict ℕ (Dict String (List ℕ))
      → Result (Unit {0}) × Dict ℕ (Dict String (List ℕ))
  spread_data_coprime_id field positions [] = (ok tt, [])
  spread_data_coprime_id field positions ((nid, state) ∷ rest) =
      elim (coprime_neighbors nid positions) [
        | err e ↦ (err e, (nid, state) ∷ rest)
        | ok ns ↦
            let (r, rest') = spread_data_coprime_id field positions rest in
            (r, (nid, insert field ns state) ∷ rest')
      ]

  contains_absent :
      (nid j : ℕ) (p : P) (d : Positions P)
      → has j d ≡ false
      → contains (filter_neighbors nid p d) j ≡ false
  unfolding contains filter_neighbors has
  contains_absent nid j p [] h = refl
  contains_absent nid j p ((i, q) ∷ d) h = ground (arith, contains_absent nid j p d)

  abbrev qualifies : ℕ → P → ℕ → Option P → Bool
  qualifies nid p j none = false
  qualifies nid p j (some q) = is_coprime_neighbor nid p j q

  contains-filter :
      (nid j : ℕ) (p : P) (d : Positions P)
      → IsDict d
      → contains (filter_neighbors nid p d) j ≡ qualifies nid p j (lookup j d)
  unfolding contains filter_neighbors lookup
  contains-filter nid j p [] k = refl
  contains-filter nid j p ((i, q) ∷ d) k =
      ground (arith, contains-filter nid j p d k.1, contains_absent nid i p d, nat_eqb_iff i j)

  -- What makes `j` a coprime neighbour of `i`
  pub record IsCoprimeNeighbor (positions : Positions P) (i j : ℕ) : Type 0 where
    pub here : P
    pub there : P
    pub located : lookup i positions ≡ some here
    pub placed : lookup j positions ≡ some there
    pub other_id : j ≢ i
    pub near : within here there ≡ true
    pub coprime : gcd i j ≡ 1

  qualifies_iff :
      (i j : ℕ) (p q : P)
      → (is_coprime_neighbor i p j q ≡ true) ↔ ((j ≢ i) × (within p q ≡ true) × (gcd i j ≡ 1))
  unfolding is_coprime_neighbor
  qualifies_iff i j p q = ground (arith, nat_eqb_iff j i, nat_eqb_iff (gcd i j) 1)

  -- The ids that `_coprime_neighbors` gives for a node are those of the other nodes whose positions
  -- are near its own and whose ids are coprime with its id.
  pub coprime_neighbors_iff :
      (i j : ℕ) (d : Positions P) {xs : List ℕ}
      → IsDict d
      → coprime_neighbors i d ≡ ok xs
      → (contains xs j ≡ true) ↔ IsCoprimeNeighbor d i j
  unfolding coprime_neighbors
  coprime_neighbors_iff i j d {xs} k e = elim (Option-cases (lookup i d)) [
    | inl n ↦ absurd (ground (arith, n))
    | inr (p, l) ↦
        let listed : xs ≡ filter_neighbors i p d = ground (arith, l) in
        let found = contains-filter i j p d k in
        (
          λ h. elim (Option-cases (lookup j d)) [
            | inl n ↦ absurd (ground (arith, n, listed, found, h))
            | inr (q, f) ↦
                let facts = (qualifies_iff i j p q).0 (ground (arith, listed, found, h, f)) in
                record {
                  here = p;
                  there = q;
                  located = l;
                  placed = f;
                  other_id = facts.0;
                  near = facts.1;
                  coprime = facts.2;
                }
          ],
          λ c.
              let same : c.here ≡ p = ground (arith, c.located, l) in
              let q = (qualifies_iff i j c.here c.there).1 (c.other_id, c.near, c.coprime) in
              ground (arith, listed, found, c.placed, same, q),
        )
  ]
