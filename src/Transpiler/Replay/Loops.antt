-- ===== src/Transpiler/Replay/Loops.antt =====
-- How the headers of loops and the branches of tests follow their traces.
use fcpp_bridge.Prelude.{
  String, Bool, true, false, Option, none, some, List, ◌≡◌, refl, arith, inl, inr, if◌then◌else◌,
}
use fcpp_bridge.Ipc.Exec.{ok, Result, Result-cases, pure, ◌>>=◌, ◌>>◌}
use fcpp_bridge.Transpiler.Text.{◌<>◌}
use fcpp_bridge.Transpiler.Visitor.{Visitor, M, report}
use fcpp_bridge.Transpiler.Statements.{block}
use fcpp_bridge.Transpiler.Effects.{
  Follows, Follows-bind, Follows-bind_when, Follows-map, Follows-pure, Trace, replay, apply,
  problem, event, silent, ◌then_do◌,
}

abbrev IsSome : Option String → Type 0
IsSome none = ⊥
IsSome (some s) = Unit

-- Every header that `m` gives is one.
pub record Gives (m : M (Option String)) : Type 0 where
  gives : (v : Visitor) (a : Option String) → (m v).0 ≡ ok a → IsSome a

ok_IsSome :
    (s : String) (o : Option String)
    → ◌≡◌ {A = Result (Option String)} (ok (some s)) (ok o)
    → IsSome o
ok_IsSome s none q = absurd (cc)
ok_IsSome s (some t) q = tt

pub pure-Gives : (s : String) → Gives (pure (some s))
pure-Gives s = record { gives = λ v b q. ok_IsSome s b q }

pub bind-Gives :
    {A : Type 0} (m : M A) {f : A → M (Option String)} → ((a : A) → Gives (f a)) → Gives (m >>= f)
bind-Gives m k = record {
  gives = λ v b q. elim (Result-cases (m v).0) [
    | inl (a, e) ↦ (k a).gives (m v).1 b (ground (arith, e))
    | inr (x, e) ↦ absurd (ground (arith, e))
  ];
}

-- A loop with the header that `m` gives, if any
abbrev pub looping : M (List String) → M (Option String) → M String
looping body m = m >>= λ header. elim header [
  | none ↦ pure ""
  | some h ↦ body >>= λ lines. pure (block ("for (" <> h <> ")") lines)
]

pub opens :
    {m : M (Option String)} {body : M (List String)} {t u : Trace}
    → Follows m t
    → Gives m
    → Follows body u
    → Follows (looping body m) (t then_do u)
opens {body} {u} h g k = Follows-bind_when IsSome h (λ v a q. g.gives v a q) headed
  where
    headed :
        (header : Option String)
        → IsSome header
        → Follows
            (elim header as (λ o. M String) [
              | none ↦ pure ""
              | some h ↦ body >>= λ lines. pure (block ("for (" <> h <> ")") lines)
            ])
            u
    headed none p = absurd p
    headed (some h) p = Follows-map _ k

pub refuses :
    (e : String) (body : M (List String))
    → Follows (looping body (report e >> pure none)) (event (problem e))
unfolding replay apply
refuses e body = record { ends = λ v. refl; leaves = λ v. refl }

both :
    {A : Type 0} {m n : M A} {t : Trace} (b : Bool)
    → Follows m t
    → Follows n t
    → Follows (if b then m else n) t
both true h k = h
both false h k = k

-- The only statement of the `else` part
pub last-Follows :
    {m : M String} {t : Trace} (b : Bool) (f g : String → String)
    → Follows m t
    → Follows (if b then (m >>= λ s. pure (f s)) else (m >>= λ s. pure (g s))) (t then_do silent)
last-Follows b f g h =
    both b (Follows-bind h (λ s. Follows-pure (f s))) (Follows-bind h (λ s. Follows-pure (g s)))
