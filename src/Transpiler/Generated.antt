-- ===== src/Transpiler/Generated.antt =====
-- The program that `Transpiler.generate` makes: when there is one, and what it includes.
use fcpp_bridge.Prelude.{
  String, true, some, List, [], ◌∷◌, ◌||◌, ◌==◌, ◌≡◌, refl, arith, string_key, inl, inr, sym, subst,
  ◌∙◌, Option-cases,
}
use fcpp_bridge.Prelude.Dict.{lookup}
use fcpp_bridge.Ipc.Exec.{Exc, Result, ok, err, Result-cases}
use fcpp_bridge.Transpiler.Syntax.{Stmts}
use fcpp_bridge.Transpiler.Visitor.{Visitor, new_visitor, fcpp_primitives, member}
use fcpp_bridge.Transpiler.Statements.{transpile_statements}
use fcpp_bridge.Transpiler.Expected.Statements.{trace_stmts}
use fcpp_bridge.Transpiler.Effects.{outcome}
use fcpp_bridge.Transpiler.Reports.{
  IsDistinct, uses, transpile_statements-replay, transpile_statements-names,
}
use fcpp_bridge.Transpiler.Builder.{
  CppCodeBuilder, new_builder, add_include, add_includes, add_declaration, add_helper,
  set_main_aggregate, member-add_include, member-add_includes, add_include-IsDistinct,
  add_includes-IsDistinct,
}
use fcpp_bridge.Transpiler.Program.{
  Library, Transpiler, skip_docstring, primitive_headers, finish_body, transpile_method_body,
  generate_compute, generate_initial_state, start_program, fill_builder, generate,
}
use fcpp_bridge.Dsl.CppTypes.{required_includes, includes_or_empty}

member-primitive_headers :
    (f h : String) (ps : List String)
    → lookup f fcpp_primitives ≡ some h
    → member f ps ≡ true
    → member h (primitive_headers ps) ≡ true
unfolding primitive_headers member
member-primitive_headers f h [] l m = m
member-primitive_headers f h (p ∷ ps) l m = elim (Option-cases (lookup p fcpp_primitives)) [
  | inl q ↦ ground (arith, q, string_key.same_iff p f, member-primitive_headers f h ps l)
  | inr (x, q) ↦ ground (
    arith,
    q,
    string_key.same_iff p f,
    string_key.same_iff x h,
    member-primitive_headers f h ps l,
  )
]

module _ (l : Library) (t : Transpiler) where
  -- The includes of the builder, by the primitives that the translation of `compute` used
  filled :
      {b : CppCodeBuilder} {body : String} {used : List String}
      → transpile_method_body l t.source ≡ ok (body, used)
      → fill_builder l t ≡ ok b
      → b.includes ≡ (add_includes (primitive_headers used) (start_program t.state_type)).includes
  unfolding fill_builder generate_compute generate_initial_state add_helper set_main_aggregate
  filled {b} {body} {used} q h = elim (Result-cases t.source.initial_source) [
    | inl (s, r) ↦ ground (arith, q, r)
    | inr (e, r) ↦ absurd (ground (arith, q, r))
  ]

  start-includes :
      (h : String)
      → member h (start_program t.state_type).includes ≡ (
          ("<fcpp/fcpp.hpp>" == h) || member h (includes_or_empty (required_includes t.state_type)))
  unfolding add_declaration member
  start-includes h = ground (
    arith,
    member-add_includes h (includes_or_empty (required_includes t.state_type))
        (add_include "<fcpp/fcpp.hpp>" new_builder),
    member-add_include h "<fcpp/fcpp.hpp>" new_builder,
  )

  start-IsDistinct : IsDistinct (start_program t.state_type).includes
  unfolding add_declaration
  start-IsDistinct = ground (
    arith,
    add_includes-IsDistinct (includes_or_empty (required_includes t.state_type))
        (add_include "<fcpp/fcpp.hpp>" new_builder),
    add_include-IsDistinct "<fcpp/fcpp.hpp>" new_builder tt,
  )

  unfilled :
      {e : Exc} {b : CppCodeBuilder}
      → transpile_method_body l t.source ≡ err e
      → fill_builder l t ≡ ok b
      → ⊥
  unfolding fill_builder generate_compute
  unfilled q h = ground (arith, q)

  finish-used :
      (r : Result String) (v : Visitor) {body : String} {used : List String}
      → finish_body l (r, v) ≡ ok (body, used)
      → used ≡ v.used_primitives
  unfolding finish_body
  finish-used (ok s) v q = ground arith
  finish-used (err e) v q = absurd (ground arith)

  finish-returns :
      (r : Result String) (v : Visitor)
      → outcome r ≡ ok tt
      → (p : String × List String) × (finish_body l (r, v) ≡ ok p)
  unfolding finish_body
  finish-returns (ok s) v q = (_, refl)
  finish-returns (err e) v q = absurd (ground arith)

  built :
      {p : String × List String} {source : String}
      → transpile_method_body l t.source ≡ ok p
      → t.source.initial_source ≡ ok source
      → (program : String) × (generate l t ≡ ok program)
  unfolding generate fill_builder generate_compute generate_initial_state
  built {p} q i = elim (Result-cases (generate l t)) [
    | inl r ↦ r
    | inr (e, r) ↦ absurd (ground (arith, q, i, r))
  ]

  -- No header is included twice in a program.
  pub fill_builder-IsDistinct :
      {b : CppCodeBuilder} → fill_builder l t ≡ ok b → IsDistinct b.includes
  fill_builder-IsDistinct {b} e = elim (Result-cases (transpile_method_body l t.source)) [
    | inr (x, q) ↦ absurd (unfilled q e)
    | inl ((body, used), q) ↦ subst IsDistinct (sym (filled q e)) (
        add_includes-IsDistinct (primitive_headers used) (start_program t.state_type)
          start-IsDistinct)
  ]

  module _ (stmts : Stmts) (parsed : t.source.compute_body ≡ ok stmts) where
    body_lem :
        transpile_method_body l t.source
        ≡ finish_body l
            (transpile_statements t.source.globals l.dump (skip_docstring stmts) new_visitor)
    unfolding transpile_method_body
    body_lem = rw parsed

    -- `generate` returns a program if the sources of both methods are there, that of `compute` parses
    -- to a body, and the translation of the body does not raise, also where the visitor recorded
    -- problems.
    pub generate-returns :
        {source : String}
        → t.source.initial_source ≡ ok source
        → (trace_stmts t.source.globals l.dump (skip_docstring stmts)).0 ≡ ok tt
        → (program : String) × (generate l t ≡ ok program)
    generate-returns i e =
        let m = transpile_statements t.source.globals l.dump (skip_docstring stmts) new_visitor in
        let f =
          transpile_statements-replay t.source.globals l.dump (skip_docstring stmts) new_visitor in
        let (p, q) = finish-returns m.0 m.1 (f.0 ∙ e) in built (body_lem ∙ q) i

    -- The program includes the header of every primitive that the translation of `compute` meets at a
    -- call. It goes into both branches of an `if`, the bodies of a `while` and of a `for` over a `range`
    -- of one to three arguments, and the cases of a `match`. Among what it does not go into are an
    -- assignment to anything but one name, the body of another `for`, and the `else` part of a loop.
    pub fill_builder-includes_primitive :
        (f h : String) {b : CppCodeBuilder}
        → uses f (trace_stmts t.source.globals l.dump (skip_docstring stmts)).1 ≡ true
        → lookup f fcpp_primitives ≡ some h
        → fill_builder l t ≡ ok b
        → member h b.includes ≡ true
    fill_builder-includes_primitive f h {b} u k e =
        elim (Result-cases (transpile_method_body l t.source)) [
          | inr (x, q) ↦ absurd (unfilled q e)
          | inl ((body, used), q) ↦
              let m =
                transpile_statements t.source.globals l.dump (skip_docstring stmts) new_visitor in
              let n = finish-used m.0 m.1 (sym body_lem ∙ q) in
              let p =
                transpile_statements-names t.source.globals l.dump (skip_docstring stmts)
                  new_visitor f in
              let w = member-primitive_headers f h used k in
              let a = member-add_includes h (primitive_headers used) (start_program t.state_type) in
              ground (arith, n, p, w, a, filled q e)
        ]
