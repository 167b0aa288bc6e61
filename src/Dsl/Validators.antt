-- ===== src/Dsl/Validators.antt =====
-- The rules of python_dsl/validators, the pipeline that runs them, and `get_state_type`. A class is
-- given by what `getattr`, `callable` and `inspect.signature` tell of it.
use fcpp_bridge.Prelude.{
  String, Bool, true, false, not, Option, none, some, List, [], ◌∷◌, ◌++◌, ◌&&◌, ◌==◌, string_key,
  if◌then◌else◌,
}
use fcpp_bridge.Ipc.Exec.{Exc, Result, ok, err, attribute_error, type_error, validation_error}
use fcpp_bridge.Transpiler.Text.{◌<>◌}
use fcpp_bridge.Transpiler.Visitor.{member}
use fcpp_bridge.Dsl.Annotations.{Annotation}
use fcpp_bridge.Dsl.Infer.{◌>>=◌}

-- list(sig.parameters) and sig.return_annotation, `none` for inspect.Parameter.empty
pub record Signature : Type 0 where
  pub parameters : List String
  pub return_annotation : Option Annotation

-- What `getattr`, `callable` and `inspect.signature` say of a class's attribute: there is none, it
-- cannot be called, it can be called but `signature` raises, or it has a signature.
pub data Attribute : Type 0 where
  missing not_callable : Attribute
  opaque : Exc → Attribute
  method : Signature → Attribute

abbrev pub is_callable : Attribute → Bool
is_callable missing = false
is_callable not_callable = false
is_callable (opaque e) = true
is_callable (method m) = true

-- inspect.signature(getattr(cls, name))
unfoldable pub signature_of : Attribute → Result Signature
signature_of missing = err attribute_error
signature_of not_callable = err type_error
signature_of (opaque e) = err e
signature_of (method m) = ok m

pub record AggregateClass : Type 0 where
  pub class_name : String
  pub is_aggregate_function : Bool
  pub initial_state : Attribute
  pub compute : Attribute
  -- hasattr(cls, "step"), hasattr(cls, "update")
  pub has_step : Bool
  pub has_update : Bool

abbrev pub Rule : Type 0
Rule = AggregateClass → Result (List String)

-- [p for p in sig.parameters if p != "self"]
unfoldable pub without_self : List String → List String
without_self [] = []
without_self (p ∷ ps) = if p == "self" then without_self ps else p ∷ without_self ps

abbrev pub is_annotated : Signature → Bool
is_annotated s = elim s.return_annotation [ none ↦ false | some a ↦ true ]

-- MarkerRule.check
unfoldable pub marker_rule : Rule
marker_rule c = if c.is_aggregate_function then ok [] else err validation_error

-- RequiredMethodsRule.check
unfoldable pub required_methods_rule : Rule
required_methods_rule c =
    if not (is_callable c.initial_state)
    then err validation_error
    else if not (is_callable c.compute)
    then err validation_error
    else ok []

unfoldable pub check_initial : List String → Bool → Result (List String)
check_initial [] true = ok []
check_initial [] false = err validation_error
check_initial (p ∷ ps) b = err validation_error

-- InitialStateRule.check
unfoldable pub initial_state_rule : Rule
unfolding check_initial without_self signature_of
initial_state_rule c = do
  m ← signature_of c.initial_state
  check_initial (without_self m.parameters) (is_annotated m)

abbrev pub state_names : List String
state_names = "self_state" ∷ "state" ∷ "s" ∷ []

abbrev pub nbr_names : List String
nbr_names = "neighbors" ∷ "nbrs" ∷ "neighborhood" ∷ []

unfoldable pub check_compute : List String → Bool → Result (List String)
check_compute (s ∷ n ∷ []) annotated =
    if not (member s state_names)
    then err validation_error
    else if not (member n nbr_names)
    then err validation_error
    else if annotated
    then ok []
    else err validation_error
check_compute ps annotated = err validation_error

-- ComputeSignatureRule.check
unfoldable pub compute_signature_rule : Rule
unfolding check_compute without_self signature_of
compute_signature_rule c = do
  m ← signature_of c.compute
  check_compute (without_self m.parameters) (is_annotated m)

unfoldable pub deprecated : String → Bool → String → List String
deprecated class_name present bad_name =
    if present
    then (class_name <> " defines " <> bad_name <> "() but should use compute()") ∷ []
    else []

-- DeprecatedMethodRule.check
unfoldable pub deprecated_method_rule : Rule
unfolding deprecated
deprecated_method_rule c =
    ok (deprecated c.class_name c.has_step "step" ++ deprecated c.class_name c.has_update "update")

-- ValidationPipeline.run
unfoldable pub run : List Rule → AggregateClass → Result (List String)
run [] c = ok []
run (r ∷ rs) c = do warnings ← r c; rest ← run rs c; ok (warnings ++ rest)

-- ValidationPipeline.add_rule
unfoldable pub add_rule : Rule → List Rule → List Rule
add_rule r rs = rs ++ r ∷ []

unfoldable pub default_pipeline : List Rule
default_pipeline =
    marker_rule ∷ required_methods_rule ∷ initial_state_rule ∷ compute_signature_rule
    ∷ deprecated_method_rule ∷ []

-- AggregateValidator.validate with the default pipeline
unfoldable pub validate : AggregateClass → Result (List String)
unfolding run default_pipeline
validate c = run default_pipeline c

-- AggregateValidator.get_state_type
unfoldable pub get_state_type : AggregateClass → Result Annotation
unfolding signature_of
get_state_type c = do
  m ← signature_of c.initial_state
  elim m.return_annotation [ none ↦ err validation_error | some a ↦ ok a ]

-- AggregateValidator.check_method_signature
unfoldable pub check_method_signature : Signature → List String → Bool
unfolding without_self
check_method_signature s expected = same_names (without_self s.parameters) expected
  where
    same_names : List String → List String → Bool
    same_names [] [] = true
    same_names (x ∷ xs) (y ∷ ys) = (x == y) && same_names xs ys
    same_names xs ys = false
