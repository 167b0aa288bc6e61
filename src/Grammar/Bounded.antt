-- ===== src/Grammar/Bounded.antt =====
-- Runs of the parser that stay within their tokens, and how such runs compose.
use fcpp_bridge.Prelude.{
  ℕ, ◌+◌, ◌≤◌, String, Bool, true, false, List, ◌≡◌, refl, arith, ◌⊎◌, inl, length,
}
use fcpp_bridge.Ipc.Exec.{Exc, Result, ok, err, parser_error, value_error, continue, ◌>>=◌}
use fcpp_bridge.Grammar.Parser.{P}

-- A run that started with `n` tokens raised nothing but a ParserError or a ValueError, so it had fuel
-- enough, and a result took at least `k` of them.
pub record Bounded {A : Type 0} (k n : ℕ) (r : Result A × List String) : Type 0 where
  pub raises : (e : Exc) → r.0 ≡ err e → (e ≡ parser_error) ⊎ (e ≡ value_error)
  pub shorter : (a : A) → r.0 ≡ ok a → length r.1 + k ≤ n

module _ {A : Type 0} where
  pub Bounded-weaken :
      {j m : ℕ} (k n : ℕ) {r : Result A × List String}
      → Bounded j m r
      → m + k ≤ n + j
      → Bounded k n r
  Bounded-weaken k n b h = record {
    raises = b.raises;
    shorter = λ a q. omega (arith, b.shorter a q);
  }

  pub Bounded-ok : (a : A) (k n : ℕ) (ts : List String) → length ts + k ≤ n → Bounded k n (ok a, ts)
  Bounded-ok a k n ts h = record { raises = λ e q. absurd (ground arith); shorter = λ b q. h }

  pub Bounded-err : (k n : ℕ) (ts : List String) → Bounded {A = A} k n (err parser_error, ts)
  Bounded-err k n ts = record {
    raises = λ e q. inl (ground arith);
    shorter = λ b q. absurd (ground arith);
  }

pub Bounded-bind :
    {A B : Type 0} {j i n : ℕ} (k : ℕ) (m : P A) (f : A → P B) (ts : List String)
    → Bounded j i (m ts)
    → ((a : A) (us : List String) → length us + j ≤ i → Bounded k n (f a us))
    → Bounded k n ((m >>= f) ts)
Bounded-bind {A} {B} {j} {i} {n} k m f ts b h = split (m ts).0 (m ts).1 b.raises b.shorter
  where
    split :
        (r : Result A) (us : List String)
        → ((e : Exc) → r ≡ err e → (e ≡ parser_error) ⊎ (e ≡ value_error))
        → ((a : A) → r ≡ ok a → length us + j ≤ i)
        → Bounded k n (continue r f us)
    split (ok a) us x y = h a us (y a refl)
    split (err e) us x y = record {
      raises = λ d q. x d (ground arith);
      shorter = λ b q. absurd (ground arith);
    }

-- A test whose two branches are bounded
pub either :
    {A : Type 0} {k n : ℕ} (b : Bool) {x y : Result A × List String}
    → Bounded k n x
    → Bounded k n y
    → Bounded {A = A} k n (elim b [ true ↦ x | false ↦ y ])
either true p q = p
either false p q = q
