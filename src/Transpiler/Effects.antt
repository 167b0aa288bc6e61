-- ===== src/Transpiler/Effects.antt =====
-- What a visit does besides the text that it returns, described without the visitor: the sequence of
-- the problems, the primitives and the names that the syntax tree holds, up to the call that raises.
use fcpp_bridge.Prelude.{
  String, List, [], ◌∷◌, ◌++◌, string_key, ◌≡◌, refl, subst, inl, inr, append-nil, arith,
}
use fcpp_bridge.Ipc.Exec.{Result, ok, err, Exc}
use fcpp_bridge.Transpiler.Visitor.{Visitor, M, add_error, use_primitive, declare}
use fcpp_bridge.Ipc.Exec.{pure, raise, modify, ◌>>=◌, Result-cases}

pub data Event : Type 0 where
  problem primitive declared : String → Event

unfoldable pub apply : Event → Visitor → Visitor
apply (problem e) v = add_error e v
apply (primitive f) v = use_primitive f v
apply (declared x) v = declare x v

unfoldable pub replay : List Event → Visitor → Visitor
replay [] v = v
replay (e ∷ es) v = replay es (apply e v)

pub replay-append :
    (xs ys : List Event) (v : Visitor) → replay (xs ++ ys) v ≡ replay ys (replay xs v)
unfolding replay
replay-append [] ys v = refl
replay-append (x ∷ xs) ys v = replay-append xs ys (apply x v)

-- How a visit ends, and the events until then
abbrev pub Trace : Type 0
Trace = Result (Unit {0}) × List Event

abbrev pub silent : Trace
silent = (ok tt, [])

abbrev pub event : Event → Trace
event e = (ok tt, e ∷ [])

abbrev pub raising : Exc → Trace
raising e = (err e, [])

infixr 60 ◌then_do◌
abbrev pub ◌then_do◌ : Trace → Trace → Trace
(ok u, xs) then_do (r, ys) = (r, xs ++ ys)
(err e, xs) then_do t = (err e, xs)

abbrev pub outcome {ℓ} : {A : Type ℓ} → Result A → Result (Unit {0})
outcome (ok a) = ok tt
outcome (err e) = err e

-- From every state, `m` ends as the trace says and leaves what its events leave.
pub record Follows {A : Type 0} (m : M A) (t : Trace) : Type 0 where
  pub ends : (v : Visitor) → outcome (m v).0 ≡ t.0
  pub leaves : (v : Visitor) → (m v).1 ≡ replay t.1 v

module _ {A B : Type 0} {m : M A} {f : A → M B} where
  bind_parts :
      (t u : Trace) (P : A → Type 0)
      → Follows m t
      → ((v : Visitor) (a : A) → (m v).0 ≡ ok a → P a)
      → ((a : A) → P a → Follows (f a) u)
      → (v : Visitor)
      → (outcome ((m >>= f) v).0 ≡ (t then_do u).0) × (((m >>= f) v).1 ≡ replay (t then_do u).1 v)
  bind_parts (ok x, xs) (r, ys) P h p k v = elim (Result-cases (m v).0) [
    | inl (a, q) ↦ ground (
      arith,
      q,
      h.ends v,
      h.leaves v,
      (k a (p v a q)).ends (m v).1,
      (k a (p v a q)).leaves (m v).1,
      replay-append xs ys v,
    )
    | inr (e, q) ↦ absurd (ground (arith, q, h.ends v))
  ]
  bind_parts (err x, xs) (r, ys) P h p k v = elim (Result-cases (m v).0) [
    | inl (a, q) ↦ absurd (ground (arith, q, h.ends v))
    | inr (e, q) ↦ ground (arith, q, h.ends v, h.leaves v)
  ]

  -- `f` may use what is known of each value that `m` gives.
  pub Follows-bind_when :
      {t u : Trace} (P : A → Type 0)
      → Follows m t
      → ((v : Visitor) (a : A) → (m v).0 ≡ ok a → P a)
      → ((a : A) → P a → Follows (f a) u)
      → Follows (m >>= f) (t then_do u)
  Follows-bind_when {t} {u} P h p k = record {
    ends = λ v. (bind_parts t u P h p k v).0;
    leaves = λ v. (bind_parts t u P h p k v).1;
  }

  pub Follows-bind :
      {t u : Trace} → Follows m t → ((a : A) → Follows (f a) u) → Follows (m >>= f) (t then_do u)
  Follows-bind h k = Follows-bind_when (λ a. Unit {0}) h (λ v a q. tt) (λ a u. k a)

pub then_do-silent : (t : Trace) → (t then_do silent) ≡ t
then_do-silent (ok tt, xs) = ground (arith, append-nil xs)
then_do-silent (err e, xs) = refl

pub Follows-pure : {A : Type 0} (a : A) → Follows (pure {S = Visitor} a) silent
unfolding replay
Follows-pure a = record { ends = λ v. refl; leaves = λ v. refl }

pub Follows-raise : {A : Type 0} (e : Exc) → Follows (raise {S = Visitor} {A = A} e) (raising e)
unfolding replay
Follows-raise e = record { ends = λ v. refl; leaves = λ v. refl }

-- One update of the state
pub Follows-modify :
    (e : Event) (f : Visitor → Visitor)
    → ((v : Visitor) → f v ≡ apply e v)
    → Follows (modify f) (event e)
unfolding replay
Follows-modify e f h = record { ends = λ v. refl; leaves = λ v. h v }

-- `m`, and then a result that is made from its value
pub Follows-map :
    {A B : Type 0} {m : M A} (f : A → B) {t : Trace}
    → Follows m t
    → Follows (m >>= λ a. pure (f a)) t
Follows-map {m} f {t} h =
    subst (Follows (m >>= λ a. pure (f a))) (then_do-silent t)
      (Follows-bind h (λ a. Follows-pure (f a)))
