-- ===== src/Dsl/Annotations.antt =====
-- Python's type annotations, as `AggregateType.infer` (python_dsl/types/aggregate_type.py) tells them
-- apart, and the proxy classes of python_dsl/types. `isinstance`, `get_origin` and `get_args` of the
-- language sort an annotation into these cases.
use fcpp_bridge.Prelude.{String, Option, none, some}

-- The subclasses of _CppProxy
pub data Proxy : Type 0 where
  cpp_vector cpp_array cpp_set cpp_unordered_set cpp_multi_set cpp_map cpp_unordered_map : Proxy
  cpp_multi_map cpp_pair cpp_optional cpp_variant cpp_any cpp_span cpp_expected cpp_md_span : Proxy

-- The keys of PYTHON_TO_CPP
pub data Builtin : Type 0 where
  float int bool str bytes : Builtin

pub data Generic : Type 0 where
  list_generic tuple_generic dict_generic set_generic frozenset_generic : Generic

mutual
  pub data Annotation : Type 0 where
    builtin : Builtin → Annotation
    proxy_class : Proxy → Annotation
    bound_proxy : Proxy → Annotations → Annotation
    -- A TemplateParam by its name, a TypeVar by its __name__
    template_param type_var : String → Annotation
    generic : Generic → Annotations → Annotation
    union : Annotations → Annotation
    -- type(None)
    none_type : Annotation
    -- A class with __dataclass_fields__, a class with __annotations__, another object with __name__
    dataclass annotated_class : String → Members → Annotation
    named : String → Annotation
    -- An int by its text, which stands for the size of a CppArray, and any other object
    int_literal : String → Annotation
    nameless : Annotation

  pub data Annotations : Type 0 where
    nil : Annotations
    cons : Annotation → Annotations → Annotations

  pub data Members : Type 0 where
    no_member : Members
    member_of : String → Annotation → Members → Members

-- _cpp_template
unfoldable pub cpp_template : Proxy → String
cpp_template cpp_vector = "std::vector"
cpp_template cpp_array = "std::array"
cpp_template cpp_set = "std::set"
cpp_template cpp_unordered_set = "std::unordered_set"
cpp_template cpp_multi_set = "std::multiset"
cpp_template cpp_map = "std::map"
cpp_template cpp_unordered_map = "std::unordered_map"
cpp_template cpp_multi_map = "std::multimap"
cpp_template cpp_pair = "std::pair"
cpp_template cpp_optional = "std::optional"
cpp_template cpp_variant = "std::variant"
cpp_template cpp_any = "std::any"
cpp_template cpp_span = "std::span"
cpp_template cpp_expected = "std::expected"
cpp_template cpp_md_span = "std::mdspan"

-- _cpp_std
unfoldable pub proxy_std : Proxy → Option String
proxy_std cpp_optional = some "c++17"
proxy_std cpp_variant = some "c++17"
proxy_std cpp_any = some "c++17"
proxy_std cpp_span = some "c++20"
proxy_std cpp_expected = some "c++23"
proxy_std cpp_md_span = some "c++23"
proxy_std p = none

-- _required_includes, one header for each
unfoldable pub proxy_header : Proxy → String
proxy_header cpp_vector = "<vector>"
proxy_header cpp_array = "<array>"
proxy_header cpp_set = "<set>"
proxy_header cpp_unordered_set = "<unordered_set>"
proxy_header cpp_multi_set = "<set>"
proxy_header cpp_map = "<map>"
proxy_header cpp_unordered_map = "<unordered_map>"
proxy_header cpp_multi_map = "<map>"
proxy_header cpp_pair = "<utility>"
proxy_header cpp_optional = "<optional>"
proxy_header cpp_variant = "<variant>"
proxy_header cpp_any = "<any>"
proxy_header cpp_span = "<span>"
proxy_header cpp_expected = "<expected>"
proxy_header cpp_md_span = "<mdspan>"

-- How many type arguments a proxy takes: _SINGLE_ARG_PROXIES, _TWO_ARG_PROXIES
pub data Arity : Type 0 where
  single pair array variant not_generic : Arity

unfoldable pub arity : Proxy → Arity
arity cpp_map = pair
arity cpp_unordered_map = pair
arity cpp_multi_map = pair
arity cpp_pair = pair
arity cpp_expected = pair
arity cpp_array = array
arity cpp_variant = variant
arity cpp_any = not_generic
arity p = single
