-- ===== src/Transpiler/Reports.antt =====
-- What a translation leaves in the visitor: its errors, its primitives and its declared names.
use fcpp_bridge.Prelude.{
  String, Bool, false, List, [], ◌∷◌, ◌++◌, ◌≡◌, refl, arith, ◌||◌, ◌==◌, string_key, append_assoc,
  append-nil, sym, subst,
}
use fcpp_bridge.Transpiler.Syntax.{Expr, Stmts}
use fcpp_bridge.Transpiler.Constants.{Namespace}
use fcpp_bridge.Transpiler.Visitor.{Visitor, member, use_primitive, declare}
use fcpp_bridge.Transpiler.Statements.{transpile_statements}
use fcpp_bridge.Transpiler.Effects.{
  Event, problem, primitive, declared, outcome, replay, apply, Follows, Follows-map,
}
use fcpp_bridge.Transpiler.Expected.Statements.{trace_stmts}
use fcpp_bridge.Transpiler.Replay.Statements.{visit_lines-Follows}

-- The messages of the problems
unfoldable pub problems : List Event → List String
problems [] = []
problems (problem e ∷ es) = e ∷ problems es
problems (primitive f ∷ es) = problems es
problems (declared x ∷ es) = problems es

unfoldable pub uses : String → List Event → Bool
uses f [] = false
uses f (primitive g ∷ es) = (g == f) || uses f es
uses f (problem e ∷ es) = uses f es
uses f (declared x ∷ es) = uses f es

unfoldable pub declares : String → List Event → Bool
declares x [] = false
declares x (declared y ∷ es) = (y == x) || declares x es
declares x (problem e ∷ es) = declares x es
declares x (primitive f ∷ es) = declares x es

-- No name stands twice.
abbrev pub IsDistinct : List String → Type 0
IsDistinct [] = Unit
IsDistinct (x ∷ xs) = (member x xs ≡ false) × IsDistinct xs

pub member-append :
    (x : String) (xs ys : List String) → member x (xs ++ ys) ≡ (member x xs || member x ys)
unfolding member
member-append x [] ys = refl
member-append x (y ∷ xs) ys = ground (arith, member-append x xs ys)

pub snoc-IsDistinct :
    (x : String) (xs : List String)
    → member x xs ≡ false
    → IsDistinct xs
    → IsDistinct (xs ++ x ∷ [])
unfolding member
snoc-IsDistinct x [] m d = (refl, tt)
snoc-IsDistinct x (y ∷ xs) m d = ground (
  arith,
  snoc-IsDistinct x xs,
  member-append y xs (x ∷ []),
  string_key.same_iff x y,
  string_key.same_iff y x,
)

replay-errors : (es : List Event) (v : Visitor) → (replay es v).errors ≡ v.errors ++ problems es
unfolding replay apply problems use_primitive declare
replay-errors [] v = ground (arith, append-nil v.errors)
replay-errors (problem e ∷ es) v =
    ground
      (arith, replay-errors es (apply (problem e) v), append_assoc v.errors (e ∷ []) (problems es))
replay-errors (primitive f ∷ es) v = ground (arith, replay-errors es (use_primitive f v))
replay-errors (declared x ∷ es) v = ground (arith, replay-errors es (declare x v))

replay-used :
    (f : String) (es : List Event) (v : Visitor)
    → member f (replay es v).used_primitives ≡ (member f v.used_primitives || uses f es)
unfolding replay apply uses use_primitive declare member
replay-used f [] v = ground arith
replay-used f (problem e ∷ es) v = replay-used f es (apply (problem e) v)
replay-used f (declared x ∷ es) v = ground (arith, replay-used f es (declare x v))
replay-used f (primitive g ∷ es) v = ground (
  arith,
  replay-used f es (use_primitive g v),
  member-append f v.used_primitives (g ∷ []),
  string_key.same_iff g f,
)

replay-declared :
    (x : String) (es : List Event) (v : Visitor)
    → member x (replay es v).declared_vars ≡ (member x v.declared_vars || declares x es)
unfolding replay apply declares use_primitive declare member
replay-declared x [] v = ground arith
replay-declared x (problem e ∷ es) v = replay-declared x es (apply (problem e) v)
replay-declared x (primitive f ∷ es) v = ground (arith, replay-declared x es (use_primitive f v))
replay-declared x (declared y ∷ es) v = ground (
  arith,
  replay-declared x es (declare y v),
  member-append x v.declared_vars (y ∷ []),
  string_key.same_iff y x,
)

replay-IsDistinct :
    (es : List Event) (v : Visitor)
    → IsDistinct v.used_primitives
    → IsDistinct (replay es v).used_primitives
unfolding replay apply use_primitive declare
replay-IsDistinct [] v d = d
replay-IsDistinct (problem e ∷ es) v d = replay-IsDistinct es (apply (problem e) v) d
replay-IsDistinct (declared x ∷ es) v d = ground (arith, replay-IsDistinct es (declare x v))
replay-IsDistinct (primitive f ∷ es) v d =
    ground (arith, replay-IsDistinct es (use_primitive f v), snoc-IsDistinct f v.used_primitives)

module _ (constants : Namespace) (dump : Expr → String) (stmts : Stmts) where
  transpile_statements-Follows :
      Follows (transpile_statements constants dump stmts) (trace_stmts constants dump stmts)
  unfolding transpile_statements
  transpile_statements-Follows = Follows-map _ (visit_lines-Follows constants dump stmts)

  -- A translation ends as the trace of the statements says, with a text or with its exception, from
  -- every state of the visitor, and leaves the state that the events of the trace lead to one by one:
  -- each problem appended, each primitive and each assigned name added if it is not there.
  pub transpile_statements-replay :
      (v : Visitor)
      → (outcome (transpile_statements constants dump stmts v).0
          ≡ (trace_stmts constants dump stmts).0)
        × ((transpile_statements constants dump stmts v).1
            ≡ replay (trace_stmts constants dump stmts).1 v)
  transpile_statements-replay v = let f = transpile_statements-Follows in (f.ends v, f.leaves v)

  -- The errors after a translation are those before it followed by one message for each problem of the
  -- statements, in their order.
  pub transpile_statements-errors :
      (v : Visitor)
      → (transpile_statements constants dump stmts v).1.errors
        ≡ v.errors ++ problems (trace_stmts constants dump stmts).1
  transpile_statements-errors v =
      rw (transpile_statements-Follows.leaves v)
        (replay-errors (trace_stmts constants dump stmts).1 v)

  -- A primitive is recorded after a translation if it was before or if the statements call it, and a
  -- name is declared if it was before or if the statements assign it.
  pub transpile_statements-names :
      (v : Visitor) (x : String)
      → (member x (transpile_statements constants dump stmts v).1.used_primitives
          ≡ (member x v.used_primitives || uses x (trace_stmts constants dump stmts).1))
        × (member x (transpile_statements constants dump stmts v).1.declared_vars
            ≡ (member x v.declared_vars || declares x (trace_stmts constants dump stmts).1))
  transpile_statements-names v x = rw (transpile_statements-Follows.leaves v) (
    replay-used x (trace_stmts constants dump stmts).1 v,
    replay-declared x (trace_stmts constants dump stmts).1 v,
  )

  -- If no primitive is recorded twice before a translation, none is after it.
  pub transpile_statements-IsDistinct :
      (v : Visitor)
      → IsDistinct v.used_primitives
      → IsDistinct (transpile_statements constants dump stmts v).1.used_primitives
  transpile_statements-IsDistinct v d =
      subst (λ (w : Visitor). IsDistinct w.used_primitives)
        (sym (transpile_statements-Follows.leaves v))
        (replay-IsDistinct (trace_stmts constants dump stmts).1 v d)
