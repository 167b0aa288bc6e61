-- ===== src/Prelude/Dict.antt =====
-- Python's `dict`: entries in insertion order. A write to a key that is there keeps its place.
use mathlib.Core.Path.{◌≡◌, refl}
use mathlib.Core.Bool.{Bool, false, ◌||◌}
use mathlib.Core.Logic.{◌↔◌}
use mathlib.Core.Option.{Option, none, some}
use mathlib.Core.List.{List, [], ◌∷◌, ◌++◌}
use native.Mathlib.Omega.{arith}
use fcpp_bridge.Prelude.Tests.{Key, ◌==◌, if◌then◌else◌}

abbrev pub Dict {ℓ κ} : Type ℓ → Type κ → Type (ℓ ⊔ κ)
Dict K V = List (K × V)

module _ {ℓ κ} {K : Type ℓ} {V : Type κ} where
  -- d.keys() and d.values()
  abbrev pub keys : Dict K V → List K
  keys [] = []
  keys ((j, v) ∷ d) = j ∷ keys d

  abbrev pub values : Dict K V → List V
  values [] = []
  values ((j, v) ∷ d) = v ∷ values d

module _ {ℓ κ} {K : Type ℓ} {V : Type κ} ⦃e : Key K⦄ where
  -- d.get(k)
  unfoldable pub lookup : K → Dict K V → Option V
  lookup k [] = none
  lookup k ((j, v) ∷ d) = if j == k then some v else lookup k d

  -- k in d
  unfoldable pub has : K → Dict K V → Bool
  has k [] = false
  has k ((j, v) ∷ d) = (j == k) || has k d

  -- d[k] = v
  unfoldable pub insert : K → V → Dict K V → Dict K V
  insert k v [] = (k, v) ∷ []
  insert k v ((j, w) ∷ d) = if j == k then (j, v) ∷ d else (j, w) ∷ insert k v d

  -- del d[k], d.pop(k, None)
  unfoldable pub remove : K → Dict K V → Dict K V
  remove k [] = []
  remove k ((j, v) ∷ d) = if j == k then d else (j, v) ∷ remove k d

  -- No key stands twice. `insert` and `remove` keep it, so it holds of every dict.
  abbrev pub IsDict : Dict K V → Type 0
  IsDict [] = Unit
  IsDict ((j, v) ∷ d) = (has j d ≡ false) × IsDict d

  pub lookup-insert :
      (k j : K) (v : V) (d : Dict K V)
      → lookup j (insert k v d) ≡ (if k == j then some v else lookup j d)
  unfolding lookup insert
  lookup-insert k j v [] = refl
  lookup-insert k j v ((i, w) ∷ d) =
      ground (arith, e.same_iff k j, e.same_iff i k, e.same_iff i j, lookup-insert k j v d)

  pub has-insert : (k j : K) (v : V) (d : Dict K V) → has j (insert k v d) ≡ ((k == j) || has j d)
  unfolding has insert
  has-insert k j v [] = refl
  has-insert k j v ((i, w) ∷ d) =
      ground (arith, e.same_iff k j, e.same_iff i k, e.same_iff i j, has-insert k j v d)

  pub lookup-none_iff : (k : K) (d : Dict K V) → (has k d ≡ false) ↔ (lookup k d ≡ none)
  unfolding lookup has
  lookup-none_iff k [] = (λ h. refl, λ h. refl)
  lookup-none_iff k ((j, v) ∷ d) = ground (arith, lookup-none_iff k d)

  pub insert-IsDict : (k : K) (v : V) (d : Dict K V) → IsDict d → IsDict (insert k v d)
  unfolding insert
  insert-IsDict k v [] h = (unfold has in refl, tt)
  insert-IsDict k v ((j, w) ∷ d) h =
      ground (arith, e.same_iff j k, e.same_iff k j, has-insert k j v d, insert-IsDict k v d h.1)

  pub has-remove :
      (k j : K) (d : Dict K V) → IsDict d → has j (remove k d) ≡ (if k == j then false else has j d)
  unfolding has remove
  has-remove k j [] h = ground arith
  has-remove k j ((i, w) ∷ d) h =
      ground (arith, e.same_iff k j, e.same_iff i k, e.same_iff i j, has-remove k j d h.1)

  pub lookup-remove :
      (k j : K) (d : Dict K V)
      → IsDict d
      → lookup j (remove k d) ≡ (if k == j then none else lookup j d)
  unfolding lookup remove
  lookup-remove k j [] h = ground arith
  lookup-remove k j ((i, w) ∷ d) h = ground (
    arith,
    e.same_iff k j,
    e.same_iff i k,
    e.same_iff i j,
    lookup-remove k j d h.1,
    lookup-none_iff i d,
  )

  pub remove-IsDict : (k : K) (d : Dict K V) → IsDict d → IsDict (remove k d)
  unfolding remove
  remove-IsDict k [] h = tt
  remove-IsDict k ((j, w) ∷ d) h = ground (arith, has-remove k j d h.1, remove-IsDict k d h.1)

  -- A write to a new key goes to the end.
  pub insert_new :
      (k : K) (v : V) (d : Dict K V) → has k d ≡ false → insert k v d ≡ d ++ (k, v) ∷ []
  unfolding has insert
  insert_new k v [] h = refl
  insert_new k v ((j, w) ∷ d) h = ground (arith, insert_new k v d)

  pub values-insert_new :
      (k : K) (v : V) (d : Dict K V) → has k d ≡ false → values (insert k v d) ≡ values d ++ v ∷ []
  unfolding has insert
  values-insert_new k v [] h = refl
  values-insert_new k v ((j, w) ∷ d) h = ground (arith, values-insert_new k v d)

  pub remove-insert_new :
      (k : K) (v : V) (d : Dict K V) → has k d ≡ false → remove k (insert k v d) ≡ d
  unfolding has insert remove
  remove-insert_new k v [] h = ground (arith, e.same_iff k k)
  remove-insert_new k v ((j, w) ∷ d) h = ground (arith, remove-insert_new k v d)

  pub keys-insert :
      (k : K) (v : V) (d : Dict K V)
      → keys (insert k v d) ≡ (if has k d then keys d else keys d ++ k ∷ [])
  unfolding has insert
  keys-insert k v [] = refl
  keys-insert k v ((j, w) ∷ d) = ground (arith, keys-insert k v d)
