-- ===== src/Ipc/Swarm/Random.antt =====
-- `add_nodes_random` of swarm_process.py: ids drawn until enough of them are new.
use fcpp_bridge.Prelude.{
  ℕ, zero, suc, ◌+◌, ◌≡◌, refl, subst, true, false, Option, none, some, List, [], ◌∷◌, arith,
  nat_eqb_iff, leb, length, take, if◌then◌else◌, ◌||◌, Bool-cases, inl, inr,
}
use fcpp_bridge.Prelude.IdSet.{contains, add, IsIdSet, contains-add, add-IsIdSet, length-add}
use fcpp_bridge.Ipc.Outside.{Outside}
use fcpp_bridge.Ipc.Swarm.{and_id, draw_ids}

-- What the loop promises of the ids that it found: `known'` is `known` with them.
pub record IsDrawn (count : ℕ) (known ids known' : List ℕ) : Type 0 where
  pub enough : length ids ≡ count
  pub distinct : IsIdSet ids
  pub new : (i : ℕ) → contains ids i ≡ true → contains known i ≡ false
  pub all_known : (i : ℕ) → contains known' i ≡ (contains ids i || contains known i)
  pub grown : length known' ≡ length known + count
  pub id_set : IsIdSet known → IsIdSet known'

IsDrawn-nil : (known : List ℕ) → IsDrawn 0 known [] known
unfolding contains
IsDrawn-nil known = record {
  enough = refl;
  distinct = tt;
  new = λ i m. cc;
  all_known = λ i. refl;
  grown = omega arith;
  id_set = λ h. h;
}

IsDrawn-cons :
    (count nid : ℕ) (known ids known' : List ℕ)
    → IsDrawn count (add nid known) ids known'
    → contains known nid ≡ false
    → IsDrawn (suc count) known (nid ∷ ids) known'
unfolding contains
IsDrawn-cons count nid known ids known' d f = record {
  enough = omega (arith, d.enough);
  distinct = (
    ground (
      arith,
      contains-add nid nid known,
      nat_eqb_iff nid nid,
      Bool-cases (contains ids nid),
      d.new nid,
    ),
    d.distinct,
  );
  new = λ i m. ground (arith, contains-add nid i known, nat_eqb_iff nid i, d.new i);
  all_known = λ i. ground (arith, contains-add nid i known, d.all_known i);
  grown = ground (arith, length-add nid known, d.grown);
  id_set = λ h. d.id_set (add-IsIdSet nid known h);
}

and_id-some :
    (i : ℕ) (drawn : Option (List ℕ)) {ids : List ℕ}
    → and_id i drawn ≡ some ids
    → (rest : List ℕ) × (drawn ≡ some rest) × (ids ≡ i ∷ rest)
and_id-some i none e = absurd (cc)
and_id-some i (some rest) e = (rest, refl, cc)

-- None of the numbers is in the set.
abbrev pub NoneIn : List ℕ → List ℕ → Type 0
NoneIn known [] = Unit
NoneIn known (i ∷ is) = (contains known i ≡ false) × NoneIn known is

-- The numbers that are neither in the set nor among those before them
unfoldable pub first_seen : List ℕ → List ℕ → List ℕ
first_seen known [] = []
first_seen known (i ∷ is) = elim (contains known i) [
  | true ↦ first_seen known is
  | false ↦ i ∷ first_seen (i ∷ known) is
]

also :
    (nid i : ℕ) (known seen : List ℕ)
    → ((j : ℕ) → contains seen j ≡ contains known j)
    → contains (nid ∷ seen) i ≡ contains (add nid known) i
unfolding contains
also nid i known seen h = ground (arith, contains-add nid i known, h i)

module _ {W : Type 0} ⦃o : Outside W⦄ where
  pub draw_ids-IsDrawn :
      (rounds count : ℕ) (known : List ℕ) (w : W) {ids : List ℕ}
      → (draw_ids rounds count known w).0 ≡ some ids
      → IsDrawn count known ids (draw_ids rounds count known w).1.0
  unfolding draw_ids contains
  draw_ids-IsDrawn zero zero known w e =
      subst (λ l. IsDrawn 0 known l known) (cc) (IsDrawn-nil known)
  draw_ids-IsDrawn (suc rounds) zero known w e =
      subst (λ l. IsDrawn 0 known l known) (cc) (IsDrawn-nil known)
  draw_ids-IsDrawn zero (suc count) known w e = absurd (cc)
  draw_ids-IsDrawn (suc rounds) (suc count) known w e =
      let (nid, w') = o.randint w in
      elim (Bool-cases (contains known nid)) [
        | inl old ↦ rw old (draw_ids-IsDrawn rounds (suc count) known w' (rw old at e))
        | inr f ↦
            let (rest, p, q) =
              and_id-some nid (draw_ids rounds count (add nid known) w').0 (rw f at e) in
            let d = draw_ids-IsDrawn rounds count (add nid known) w' p in
            rw (f, q) (IsDrawn-cons count nid known rest _ d f)
      ]

  -- the draws of `rounds` rounds
  unfoldable pub draws : ℕ → W → List ℕ
  draws zero w = []
  draws (suc rounds) w = let (nid, w') = o.randint w in nid ∷ draws rounds w'

  draw_ids-first_seen :
      (rounds count : ℕ) (known seen : List ℕ) (w : W)
      → ((i : ℕ) → contains seen i ≡ contains known i)
      → (draw_ids rounds count known w).0 ≡ (
          let new = first_seen seen (draws rounds w) in
          if leb count (length new) then some (take count new) else none)
  unfolding draw_ids draws first_seen
  draw_ids-first_seen zero zero known seen w h = refl
  draw_ids-first_seen (suc rounds) zero known seen w h = ground arith
  draw_ids-first_seen zero (suc count) known seen w h = ground arith
  draw_ids-first_seen (suc rounds) (suc count) known seen w h =
      let (nid, w') = o.randint w in
      elim (Bool-cases (contains known nid)) [
        | inl old ↦
            ground (arith, old, h nid, draw_ids-first_seen rounds (suc count) known seen w' h)
        | inr f ↦
            let more : (i : ℕ) → contains (nid ∷ seen) i ≡ contains (add nid known) i =
              λ i. also nid i known seen h in
            ground (
              arith,
              f,
              h nid,
              draw_ids-first_seen rounds count (add nid known) (nid ∷ seen) w' more,
            )
      ]

  -- The drawing loop ends as soon as enough of the draws were new: after `rounds` draws, with the first
  -- `count` of the numbers among them that were neither in use nor drawn before, if there are so many,
  -- and it goes on if there are fewer.
  pub draw_ids_enough :
      (rounds count : ℕ) (known : List ℕ) (w : W)
      → (draw_ids rounds count known w).0 ≡ (
          let new = first_seen known (draws rounds w) in
          if leb count (length new) then some (take count new) else none)
  draw_ids_enough rounds count known w = draw_ids-first_seen rounds count known known w (λ i. refl)
