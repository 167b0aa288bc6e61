-- ===== src/Dsl/Examples.antt =====
-- The types of some annotations, and the checks of a class.
use fcpp_bridge.Dsl.Validators.{
  compute_signature_rule, deprecated_method_rule, initial_state_rule, marker_rule,
  required_methods_rule, without_self,
}
use fcpp_bridge.Dsl.Annotations.{arity, cpp_template, proxy_header, proxy_std}
use fcpp_bridge.Dsl.Headers.{needs, union_header}
use fcpp_bridge.Dsl.CppTypes.{add_seen, merge}
use fcpp_bridge.Transpiler.Text.{join}
use fcpp_bridge.Dsl.Infer.{bound_type, python_to_cpp, template}
use fcpp_bridge.Prelude.{true, false, none, some, [], ◌∷◌, ◌≡◌, refl, string_key}
use fcpp_bridge.Ipc.Exec.{ok}
use fcpp_bridge.Transpiler.Visitor.{member}
use fcpp_bridge.Dsl.CppTypes.{CppType, simple, cpp_std}
use fcpp_bridge.Dsl.Annotations.{
  Annotation, builtin, float, int, generic, list_generic, union, none_type, bound_proxy, cpp_vector,
  cpp_optional, nil, cons,
}
use fcpp_bridge.Dsl.Infer.{infer}
use fcpp_bridge.Dsl.Types.{infer-headers, infer-std}
use fcpp_bridge.Dsl.Validators.{AggregateClass, Signature, method, signature_of, validate}
use fcpp_bridge.Dsl.Validation.{IsAggregate, IsCompute, validate-IsAggregate, validate-ok, warnings}

-- list[Optional[int]]
abbrev optional_ints : Annotation
optional_ints = generic list_generic (cons (union (cons (builtin int) (cons none_type nil))) nil)

abbrev optional_ints_type : CppType
optional_ints_type =
    simple "std::vector<std::optional<int>>" false none (some ("<vector>" ∷ "<optional>" ∷ []))

infer-headers_example : member "<optional>" ("<vector>" ∷ "<optional>" ∷ []) ≡ true
unfolding infer template join merge python_to_cpp add_seen member needs union_header
infer-headers_example = infer-headers "<optional>" optional_ints {t = optional_ints_type} refl

-- CppVector[CppOptional[int]]
abbrev vector_of_optional : CppType
vector_of_optional =
    simple "std::vector<std::optional<int>>" false none (some ("<vector>" ∷ "<optional>" ∷ []))

infer-std_example : cpp_std vector_of_optional ≡ none
unfolding infer arity bound_type template cpp_template proxy_std merge join add_seen python_to_cpp
    member proxy_header
infer-std_example =
    infer-std cpp_vector (cons (bound_proxy cpp_optional (cons (builtin int) nil)) nil)
      {t = vector_of_optional} refl

abbrev initial_signature : Signature
initial_signature = record { parameters = "self" ∷ []; return_annotation = some (builtin float) }

abbrev compute_signature : Signature
compute_signature = record {
  parameters = "self" ∷ "self_state" ∷ "neighbors" ∷ [];
  return_annotation = some (builtin float);
}

abbrev gossip : AggregateClass
gossip = record {
  class_name = "Gossip";
  is_aggregate_function = true;
  initial_state = method initial_signature;
  compute = method compute_signature;
  has_step = true;
  has_update = false;
}

gossip_computes : IsCompute compute_signature
unfolding without_self member
gossip_computes = record {
  state_param = "self_state";
  nbr_param = "neighbors";
  two = refl;
  state_named = refl;
  nbr_named = refl;
  annotated = refl;
}

gossip_passes : IsAggregate gossip
unfolding without_self
gossip_passes = record {
  marked = refl;
  init = initial_signature;
  comp = compute_signature;
  has_init = refl;
  has_comp = refl;
  is_initial = (refl, refl);
  is_compute = gossip_computes;
}

validate-IsAggregate_example :
    validate gossip ≡ ok ("Gossip defines step() but should use compute()" ∷ [])
unfolding warnings
validate-IsAggregate_example = validate-IsAggregate {c = gossip} gossip_passes

validate-ok_example : IsAggregate gossip
unfolding validate marker_rule required_methods_rule initial_state_rule compute_signature_rule
    member deprecated_method_rule signature_of
validate-ok_example =
    validate-ok gossip {w = "Gossip defines step() but should use compute()" ∷ []} refl
