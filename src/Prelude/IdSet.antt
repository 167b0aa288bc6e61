-- ===== src/Prelude/IdSet.antt =====
-- Python's `set` of node ids, as a list without repetition.
use Prim.Native.Nat.{ℕ, suc, ◌+◌}
use mathlib.Core.Path.{◌≡◌, refl}
use mathlib.Core.Bool.{Bool, false, ◌||◌}
use mathlib.Core.List.{List, [], ◌∷◌, ◌++◌}
use native.Mathlib.Omega.{arith}
use fcpp_bridge.Prelude.Tests.{nat_eqb, if◌then◌else◌}
use fcpp_bridge.Prelude.Lists.{length, length-append}

-- i in s
unfoldable pub contains : List ℕ → ℕ → Bool
contains [] i = false
contains (x ∷ xs) i = nat_eqb x i || contains xs i

-- s.add(i)
unfoldable pub add : ℕ → List ℕ → List ℕ
add i s = if contains s i then s else s ++ i ∷ []

-- s.discard(i)
unfoldable pub discard : ℕ → List ℕ → List ℕ
discard i [] = []
discard i (x ∷ xs) = if nat_eqb x i then xs else x ∷ discard i xs

abbrev pub IsIdSet : List ℕ → Type 0
IsIdSet [] = Unit
IsIdSet (x ∷ xs) = (contains xs x ≡ false) × IsIdSet xs

pub contains-append :
    (xs ys : List ℕ) (i : ℕ) → contains (xs ++ ys) i ≡ (contains xs i || contains ys i)
unfolding contains
contains-append [] ys i = refl
contains-append (x ∷ xs) ys i = ground (arith, contains-append xs ys i)

pub contains-add : (i j : ℕ) (s : List ℕ) → contains (add i s) j ≡ (nat_eqb i j || contains s j)
unfolding add contains
contains-add i j s = ground (arith, contains-append s (i ∷ []) j)

snoc-IsIdSet : (i : ℕ) (s : List ℕ) → contains s i ≡ false → IsIdSet s → IsIdSet (s ++ i ∷ [])
unfolding contains
snoc-IsIdSet i [] f h = (refl, tt)
snoc-IsIdSet i (x ∷ xs) f h = ground (arith, snoc-IsIdSet i xs, contains-append xs (i ∷ []) x)

pub add-IsIdSet : (i : ℕ) (s : List ℕ) → IsIdSet s → IsIdSet (add i s)
unfolding add
add-IsIdSet i s h = ground (arith, snoc-IsIdSet i s)

pub contains-discard :
    (i j : ℕ) (s : List ℕ)
    → IsIdSet s
    → contains (discard i s) j ≡ (if nat_eqb i j then false else contains s j)
unfolding contains discard
contains-discard i j [] h = ground arith
contains-discard i j (x ∷ xs) h = ground (arith, contains-discard i j xs h.1)

pub discard-IsIdSet : (i : ℕ) (s : List ℕ) → IsIdSet s → IsIdSet (discard i s)
unfolding discard
discard-IsIdSet i [] h = tt
discard-IsIdSet i (x ∷ xs) h = ground (arith, contains-discard i x xs h.1, discard-IsIdSet i xs h.1)

pub length-add :
    (i : ℕ) (s : List ℕ) → length (add i s) ≡ (if contains s i then length s else length s + 1)
unfolding add
length-add i s = ground (arith, length-append s (i ∷ []))

pub length-discard :
    (i : ℕ) (s : List ℕ)
    → length s ≡ (if contains s i then suc (length (discard i s)) else length (discard i s))
unfolding contains discard
length-discard i [] = refl
length-discard i (x ∷ xs) = ground (arith, length-discard i xs)
