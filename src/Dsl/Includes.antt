-- ===== src/Dsl/Includes.antt =====
-- The includes of inferred types, by induction on the annotation.
use fcpp_bridge.Prelude.{
  String, Bool, false, Option, none, some, List, [], ◌∷◌, ◌||◌, ◌==◌, ◌≡◌, refl, arith, string_key,
}
use fcpp_bridge.Ipc.Exec.{Result, ok}
use fcpp_bridge.Transpiler.Text.{◌<>◌}
use fcpp_bridge.Transpiler.Visitor.{member}
use fcpp_bridge.Transpiler.Reports.{member-append}
use fcpp_bridge.Dsl.CppTypes.{
  CppType, Fields, simple, type_name, merge, required_includes, add_seen,
}
use fcpp_bridge.Dsl.Annotations.{
  Annotation, Annotations, Members, Proxy, Builtin, builtin, proxy_class, bound_proxy,
  template_param, type_var, generic, union, none_type, dataclass, annotated_class, named,
  int_literal, nameless, nil, cons, no_member, member_of, list_generic, tuple_generic, dict_generic,
  set_generic, frozenset_generic, proxy_header, Arity, arity, float, int, bool, str, bytes, cpp_any,
  cpp_template, proxy_std,
}
use fcpp_bridge.Dsl.Infer.{
  ◌>>=◌, infer, infer_all, infer_members, infer_bound, infer_union, template, struct_type,
  bound_type, python_to_cpp,
}
use fcpp_bridge.Dsl.Headers.{
  headers, any_asks, builtin_headers, union_header, needs, needs_any, needs_member, member-template,
  none_if_empty_lem, member-add_seen, Ensures, Ensures-ok, Ensures-err, Ensures-bind,
}

module _ (h : String) where
  member-builtin :
      (b : Builtin) → member h (headers (python_to_cpp b)) ≡ member h (builtin_headers b)
  unfolding python_to_cpp builtin_headers
  member-builtin float = refl
  member-builtin int = refl
  member-builtin bool = refl
  member-builtin str = refl
  member-builtin bytes = refl

  -- `A` in the type is what the annotation needs.
  abbrev Asks : Bool → Result CppType → Type 0
  Asks b r = Ensures (λ t. member h (headers t) ≡ b) r

  asks-ok : (t : CppType) {b : Bool} → member h (headers t) ≡ b → Asks b (ok t)
  asks-ok t p = Ensures-ok t p

  asks_one :
      (name header : String) (std : Option String) (t : CppType) {b : Bool}
      → member h (headers t) ≡ b
      → member h (headers (template name std header (t ∷ []))) ≡ ((header == h) || b)
  unfolding any_asks
  asks_one name header std t {b} p = ground (arith, member-template h name std header (t ∷ []))

  asks_two :
      (name header : String) (std : Option String) (s t : CppType) {b c : Bool}
      → member h (headers s) ≡ b
      → member h (headers t) ≡ c
      → member h (headers (template name std header (s ∷ t ∷ []))) ≡ ((header == h) || (b || c))
  unfolding any_asks
  asks_two name header std s t {b} {c} p q =
      ground (arith, member-template h name std header (s ∷ t ∷ []))

  struct-asks :
      (name : String) (fs : Fields) (inc : List String) {b : Bool}
      → member h inc ≡ b
      → member h (headers (struct_type name fs inc)) ≡ b
  unfolding struct_type member
  struct-asks name fs inc p =
      ground (arith, none_if_empty_lem (add_seen [] inc), member-add_seen h [] inc)

  -- A sized array asks as a template over its element does.
  array-asks :
      (p : Proxy) (name : String) (t : CppType) {b : Bool}
      → member h (headers t) ≡ b
      → member h (
          headers (
            simple name false none (merge (some (proxy_header p ∷ []) ∷ required_includes t ∷ []))))
        ≡ ((proxy_header p == h) || (b || false))
  unfolding template
  array-asks p name t {b} q = ground (arith, asks_one "std::array" (proxy_header p) none t q)

  -- The same with the arguments of a bound proxy
  bound-asks :
      (p : Proxy) (ts : List CppType) {b : Bool}
      → any_asks h ts ≡ b
      → member h (headers (bound_type p ts)) ≡ ((proxy_header p == h) || b)
  unfolding bound_type
  bound-asks p ts q =
      ground (arith, member-template h (cpp_template p) (proxy_std p) (proxy_header p) ts)

  asks_all :
      (name header : String) (std : Option String) (ts : List CppType) {b : Bool}
      → any_asks h ts ≡ b
      → member h (headers (template name std header ts)) ≡ ((header == h) || b)
  asks_all name header std ts q = ground (arith, member-template h name std header ts)

  -- The results of a union, whatever its members are
  optional-asks :
      (m : Result CppType) {b : Bool}
      → Asks b m
      → Asks
          (("<optional>" == h) || (b || false))
          (m >>= λ t. ok (template "std::optional" (some "c++17") "<optional>" (t ∷ [])))
  optional-asks m {b} k = Ensures-bind m k (λ t q.
      Ensures-ok (template "std::optional" (some "c++17") "<optional>" (t ∷ []))
        (ground (arith, asks_one "std::optional" "<optional>" (some "c++17") t q)))

  variant-asks :
      (m : Result CppType) (n : Result (List CppType)) {b c : Bool}
      → Asks b m
      → Ensures (λ ts. any_asks h ts ≡ c) n
      → Asks (("<variant>" == h) || (b || c)) (
          m >>= λ t. (n >>= λ ts. ok (template "std::variant" (some "c++17") "<variant>" (t ∷ ts))))
  unfolding any_asks
  variant-asks m n k l = Ensures-bind m k (λ t p. Ensures-bind n l (λ ts q.
      Ensures-ok (template "std::variant" (some "c++17") "<variant>" (t ∷ ts))
        (asks_all "std::variant" "<variant>" (some "c++17") (t ∷ ts) (ground arith))))

  mutual
    unfolding infer needs any_asks member union_header

    pub infer-needs : (a : Annotation) → Asks (needs h a) (infer a)
    infer-needs (bound_proxy p args) = bound-needs (arity p) p args
    infer-needs (proxy_class cpp_any) = Ensures-ok _ (ground arith)
    infer-needs (proxy_class p) = Ensures-err _
    infer-needs (template_param x) = Ensures-ok _ (ground arith)
    infer-needs (type_var x) = Ensures-ok _ (ground arith)
    infer-needs (builtin b) = Ensures-ok _ (member-builtin b)
    infer-needs (generic list_generic nil) = Ensures-ok _ (ground arith)
    infer-needs (generic list_generic (cons a as_list)) =
        Ensures-bind (infer a) (infer-needs a)
          (λ t p. Ensures-ok _ (asks_one "std::vector" "<vector>" none t p))
    infer-needs (generic tuple_generic args) =
        Ensures-bind (infer_all args) (all-needs args)
          (λ ts q. Ensures-ok _ (asks_all "std::tuple" "<tuple>" none ts q))
    infer-needs (generic dict_generic (cons a (cons b as_list))) =
        Ensures-bind (infer a) (infer-needs a) (λ s p.
          Ensures-bind (infer b) (infer-needs b)
            (λ t q. Ensures-ok _ (asks_two "std::map" "<map>" none s t p q)))
    infer-needs (generic dict_generic args) = Ensures-ok _ (ground arith)
    infer-needs (generic set_generic nil) = Ensures-ok _ (ground arith)
    infer-needs (generic set_generic (cons a as_list)) =
        Ensures-bind (infer a) (infer-needs a)
          (λ t p. Ensures-ok _ (asks_one "std::set" "<set>" none t p))
    infer-needs (generic frozenset_generic nil) = Ensures-ok _ (ground arith)
    infer-needs (generic frozenset_generic (cons a as_list)) =
        Ensures-bind (infer a) (infer-needs a)
          (λ t p. Ensures-ok _ (asks_one "std::set" "<set>" none t p))
    infer-needs (union args) = union-needs args
    infer-needs none_type = Ensures-ok _ (ground arith)
    infer-needs (dataclass x ms) =
        Ensures-bind (infer_members ms) (members-needs ms)
          (λ r p. Ensures-ok _ (struct-asks x r.0 r.1 p))
    infer-needs (annotated_class x ms) =
        Ensures-bind (infer_members ms) (members-needs ms)
          (λ r p. Ensures-ok _ (struct-asks x r.0 r.1 p))
    infer-needs (named x) = Ensures-ok _ (ground arith)
    infer-needs (int_literal n) = Ensures-err _
    infer-needs nameless = Ensures-err _

    all-needs :
        (as_list : Annotations)
        → Ensures (λ ts. any_asks h ts ≡ needs_any h as_list) (infer_all as_list)
    all-needs nil = Ensures-ok _ refl
    all-needs (cons a as_list) = Ensures-bind (infer a) (infer-needs a) (λ t p.
        Ensures-bind (infer_all as_list) (all-needs as_list) (λ ts q. Ensures-ok _ (ground arith)))

    members-needs :
        (ms : Members)
        → Ensures
            (λ (r : Fields × List String). member h r.1 ≡ needs_member h ms)
            (infer_members ms)
    members-needs no_member = Ensures-ok _ refl
    members-needs (member_of x a ms) = Ensures-bind (infer a) (infer-needs a) (λ t p.
        Ensures-bind (infer_members ms) (members-needs ms)
          (λ r q. Ensures-ok _ (ground (arith, member-append h (headers t) r.1))))

    union-needs :
        (as_list : Annotations)
        → Asks ((union_header as_list == h) || needs_any h as_list) (infer_union as_list)
    union-needs (cons none_type (cons none_type nil)) =
        variant-asks (ok (simple "NoneType" false none none))
          (ok (simple "NoneType" false none none ∷ []))
          (Ensures-ok (simple "NoneType" false none none) refl)
          (Ensures-ok (simple "NoneType" false none none ∷ []) refl)
    union-needs (cons none_type (cons b nil)) = optional-asks (infer b) (infer-needs b)
    union-needs (cons a (cons none_type nil)) = optional-asks (infer a) (infer-needs a)
    union-needs nil = Ensures-ok _ (asks_all "std::variant" "<variant>" (some "c++17") [] refl)
    union-needs (cons a as_list) =
        variant-asks (infer a) (infer_all as_list) (infer-needs a) (all-needs as_list)

    bound-needs :
        (r : Arity) (p : Proxy) (args : Annotations)
        → Asks ((proxy_header p == h) || needs_any h args) (infer_bound r p args)
    bound-needs Arity.not_generic p args = Ensures-err _
    bound-needs Arity.array p (cons a (cons (int_literal n) nil)) =
        Ensures-bind (infer a) (infer-needs a) (λ t q.
          Ensures-ok _ (array-asks p ("std::array<" <> type_name t <> ", " <> n <> ">") t q))
    bound-needs Arity.array p (cons a (cons b nil)) =
        Ensures-bind (infer a) (infer-needs a) (λ t q. Ensures-err _)
    bound-needs Arity.array p args = Ensures-err _
    bound-needs Arity.variant p nil = Ensures-err _
    bound-needs Arity.variant p (cons a nil) = Ensures-err _
    bound-needs Arity.variant p (cons a (cons b as_list)) =
        Ensures-bind (infer a) (infer-needs a) (λ s x.
          Ensures-bind (infer b) (infer-needs b) (λ t y.
            Ensures-bind (infer_all as_list) (all-needs as_list)
              (λ ts q. Ensures-ok _ (bound-asks p (s ∷ t ∷ ts) (ground arith)))))
    bound-needs Arity.single p (cons a nil) =
        Ensures-bind (infer a) (infer-needs a)
          (λ t q. Ensures-ok _ (bound-asks p (t ∷ []) (ground arith)))
    bound-needs Arity.single p args = Ensures-err _
    bound-needs Arity.pair p (cons a (cons b nil)) = Ensures-bind (infer a) (infer-needs a) (λ s x.
        Ensures-bind (infer b) (infer-needs b)
          (λ t y. Ensures-ok _ (bound-asks p (s ∷ t ∷ []) (ground arith))))
    bound-needs Arity.pair p args = Ensures-err _
