-- ===== src/Dsl/Types.antt =====
-- What an inferred type tells the code generator: its headers, and the C++ standard.
use fcpp_bridge.Prelude.{String, false, none, some, List, [], ◌∷◌, ◌≡◌, refl, arith, sym}
use fcpp_bridge.Ipc.Exec.{ok}
use fcpp_bridge.Transpiler.Text.{◌<>◌}
use fcpp_bridge.Transpiler.Visitor.{member}
use fcpp_bridge.Dsl.CppTypes.{
  CppType, simple, type_name, cpp_std, required_includes, includes_or_empty, merge,
}
use fcpp_bridge.Dsl.Annotations
use fcpp_bridge.Dsl.Annotations.{
  Annotation, Annotations, Members, Proxy, Builtin, Arity, builtin, proxy_class, bound_proxy,
  template_param, type_var, generic, union, none_type, dataclass, annotated_class, named,
  int_literal, nameless, nil, cons, list_generic, tuple_generic, dict_generic, set_generic,
  frozenset_generic, cpp_any, proxy_std, proxy_header, arity, float, int, bool, str, bytes,
}
use fcpp_bridge.Dsl.Infer.{infer, infer_all, infer_bound, template, bound_type}
use fcpp_bridge.Dsl.Headers.{needs, Ensures, Ensures-ok, Ensures-err, Ensures-bind}
use fcpp_bridge.Dsl.Includes.{infer-needs}

-- The type that is inferred for an annotation requires a header exactly if a class that the annotation
-- names, at any depth, needs it.
pub infer-headers :
    (h : String) (a : Annotation) {t : CppType}
    → infer a ≡ ok t
    → member h (includes_or_empty (required_includes t)) ≡ needs h a
infer-headers h a {t} q = (infer-needs h a).holds t q

Own-std : (p : Proxy) (ts : List CppType) → cpp_std (bound_type p ts) ≡ proxy_std p
unfolding bound_type template
Own-std p ts = refl

-- The arity of a proxy that takes a size
array_std : (p : Proxy) → arity p ≡ Arity.array → proxy_std p ≡ none
unfolding arity proxy_std
array_std Annotations.cpp_array h = refl
array_std p h = absurd (ground arith)

bound-std :
    (r : Arity) (p : Proxy) (args : Annotations)
    → arity p ≡ r
    → Ensures (λ t. cpp_std t ≡ proxy_std p) (infer_bound r p args)
unfolding infer_bound
bound-std Arity.not_generic p args h = Ensures-err _
bound-std Arity.array p (cons a (cons (int_literal n) nil)) h =
    Ensures-bind {P = λ t. Unit {0}} (infer a) (record { holds = λ t q. tt })
      (λ t q.
        Ensures-ok
          (simple ("std::array<" <> type_name t <> ", " <> n <> ">") false none
            (merge (some (proxy_header p ∷ []) ∷ required_includes t ∷ [])))
          (sym (array_std p h)))
bound-std Arity.array p (cons a (cons b nil)) h =
    Ensures-bind {P = λ t. Unit {0}} (infer a) (record { holds = λ t q. tt }) (λ t q. Ensures-err _)
bound-std Arity.array p args h = Ensures-err _
bound-std Arity.variant p nil h = Ensures-err _
bound-std Arity.variant p (cons a nil) h = Ensures-err _
bound-std Arity.variant p (cons a (cons b as_list)) h =
    Ensures-bind {P = λ t. Unit {0}} (infer a) (record { holds = λ t q. tt })
      (λ s q.
        Ensures-bind {P = λ t. Unit {0}} (infer b) (record { holds = λ t q. tt })
          (λ t q.
            Ensures-bind {P = λ t. Unit {0}} (infer_all as_list) (record { holds = λ t q. tt })
              (λ ts q. Ensures-ok (bound_type p (s ∷ t ∷ ts)) (Own-std p (s ∷ t ∷ ts)))))
bound-std Arity.single p (cons a nil) h =
    Ensures-bind {P = λ t. Unit {0}} (infer a) (record { holds = λ t q. tt })
      (λ t q. Ensures-ok (bound_type p (t ∷ [])) (Own-std p (t ∷ [])))
bound-std Arity.single p args h = Ensures-err _
bound-std Arity.pair p (cons a (cons b nil)) h =
    Ensures-bind {P = λ t. Unit {0}} (infer a) (record { holds = λ t q. tt })
      (λ s q.
        Ensures-bind {P = λ t. Unit {0}} (infer b) (record { holds = λ t q. tt })
          (λ t q. Ensures-ok (bound_type p (s ∷ t ∷ [])) (Own-std p (s ∷ t ∷ []))))
bound-std Arity.pair p args h = Ensures-err _

-- The C++ standard that is inferred for a proxy with arguments is the proxy's own, whatever its
-- arguments are: one that an argument needs is lost.
pub infer-std :
    (p : Proxy) (args : Annotations) {t : CppType}
    → infer (bound_proxy p args) ≡ ok t
    → cpp_std t ≡ proxy_std p
unfolding infer
infer-std p args {t} q = (bound-std (arity p) p args refl).holds t q
