-- ===== src/Dsl/Validation.antt =====
-- Which classes pass the default pipeline, and what is then known of them.
use fcpp_bridge.Prelude.{
  String, Bool, true, false, List, [], ◌∷◌, ◌++◌, ◌≡◌, refl, arith, inl, inr, ◌⊎◌, append-nil, ◌∙◌,
  ap, Option-cases,
}
use fcpp_bridge.Ipc.Exec.{Exc, ok, err, Result-cases}
use fcpp_bridge.Transpiler.Text.{◌<>◌}
use fcpp_bridge.Transpiler.Visitor.{member}
use fcpp_bridge.Dsl.Annotations.{Annotation}
use fcpp_bridge.Dsl.Validators.{
  Signature, Attribute, method, opaque, missing, not_callable, signature_of, AggregateClass,
  without_self, marker_rule, required_methods_rule, initial_state_rule, compute_signature_rule,
  deprecated_method_rule, check_initial, check_compute, deprecated, validate, get_state_type,
  is_annotated, state_names, nbr_names,
}

-- `initial_state(self) -> T`
abbrev pub IsInitial : Signature → Type 0
IsInitial m = (without_self m.parameters ≡ []) × (is_annotated m ≡ true)

-- `compute(self, self_state, neighbors) -> T`, with one of the names that each parameter may have
pub record IsCompute (m : Signature) : Type 0 where
  pub state_param : String
  pub nbr_param : String
  pub two : without_self m.parameters ≡ state_param ∷ nbr_param ∷ []
  pub state_named : member state_param state_names ≡ true
  pub nbr_named : member nbr_param nbr_names ≡ true
  pub annotated : is_annotated m ≡ true

pub record IsAggregate (c : AggregateClass) : Type 0 where
  pub marked : c.is_aggregate_function ≡ true
  pub init : Signature
  pub comp : Signature
  pub has_init : c.initial_state ≡ method init
  pub has_comp : c.compute ≡ method comp
  pub is_initial : IsInitial init
  pub is_compute : IsCompute comp

-- The warnings that the obsolete names of the class `name` deserve: `step`, then `update`
unfoldable pub warnings : String → Bool → Bool → List String
warnings name true true =
    (name <> " defines step() but should use compute()")
    ∷ (name <> " defines update() but should use compute()")
    ∷ []
warnings name true false = (name <> " defines step() but should use compute()") ∷ []
warnings name false true = (name <> " defines update() but should use compute()") ∷ []
warnings name false false = []

deprecated-warnings :
    (name : String) (step update : Bool)
    → deprecated name step "step" ++ deprecated name update "update" ≡ warnings name step update
unfolding deprecated warnings
deprecated-warnings name true true = refl
deprecated-warnings name true false = refl
deprecated-warnings name false true = refl
deprecated-warnings name false false = refl

signature-cases :
    (a : Attribute) → ((m : Signature) × (a ≡ method m)) ⊎ ((e : Exc) × (signature_of a ≡ err e))
unfolding signature_of
signature-cases missing = inr (_, refl)
signature-cases not_callable = inr (_, refl)
signature-cases (opaque e) = inr (e, refl)
signature-cases (method m) = inl (m, refl)

initial_passes :
    (m : Signature)
    → IsInitial m
    → check_initial (without_self m.parameters) (is_annotated m) ≡ ok []
unfolding check_initial
initial_passes m (p, a) = rw (p, a)

compute_passes :
    (m : Signature)
    → IsCompute m
    → check_compute (without_self m.parameters) (is_annotated m) ≡ ok []
unfolding check_compute
compute_passes m v = rw (v.two, v.state_named, v.nbr_named, v.annotated)

-- A class that has the marker and the two methods in their forms passes, and its warnings are those of
-- the obsolete names that it defines, `step` before `update`.
pub validate-IsAggregate :
    {c : AggregateClass}
    → IsAggregate c
    → validate c ≡ ok (warnings c.class_name c.has_step c.has_update)
unfolding validate marker_rule required_methods_rule initial_state_rule compute_signature_rule
    deprecated_method_rule signature_of
validate-IsAggregate {c} v =
    rw
      (
        v.marked,
        v.has_init,
        v.has_comp,
        initial_passes v.init v.is_initial,
        compute_passes v.comp v.is_compute,
      )
      (ap ok (
        append-nil (
          deprecated c.class_name c.has_step "step"
          ++ deprecated c.class_name c.has_update "update")
        ∙ deprecated-warnings c.class_name c.has_step c.has_update))

initial-ok :
    (ps : List String) (b : Bool) {w : List String}
    → check_initial ps b ≡ ok w
    → (ps ≡ []) × (b ≡ true)
unfolding check_initial
initial-ok [] true h = (refl, refl)
initial-ok [] false h = absurd (ground arith)
initial-ok (p ∷ ps) b h = absurd (ground arith)

IsCompute-ok :
    (m : Signature) {w : List String} (ps : List String)
    → without_self m.parameters ≡ ps
    → check_compute ps (is_annotated m) ≡ ok w
    → IsCompute m
unfolding check_compute
IsCompute-ok m [] e h = absurd (ground arith)
IsCompute-ok m (s ∷ []) e h = absurd (ground arith)
IsCompute-ok m (s ∷ n ∷ []) e h = record {
  state_param = s;
  nbr_param = n;
  two = e;
  state_named = ground arith;
  nbr_named = ground arith;
  annotated = ground arith;
}
IsCompute-ok m (s ∷ n ∷ p ∷ ps) e h = absurd (ground arith)

-- Only such classes pass.
pub validate-ok : (c : AggregateClass) {w : List String} → validate c ≡ ok w → IsAggregate c
unfolding validate marker_rule required_methods_rule initial_state_rule compute_signature_rule
    deprecated_method_rule signature_of
validate-ok c {w} h = elim (signature-cases c.initial_state) [
  | inr (x, a) ↦ absurd (ground (arith, a))
  | inl (m, a) ↦ elim (signature-cases c.compute) [
    | inr (x, b) ↦ absurd (ground (arith, a, b))
    | inl (n, b) ↦ record {
      marked = ground (arith, a, b);
      init = m;
      comp = n;
      has_init = a;
      has_comp = b;
      is_initial =
          elim (Result-cases (check_initial (without_self m.parameters) (is_annotated m))) [
            | inl (x, q) ↦ initial-ok (without_self m.parameters) (is_annotated m) q
            | inr (e, q) ↦ absurd (ground (arith, a, b, q))
          ];
      is_compute =
          elim (Result-cases (check_compute (without_self n.parameters) (is_annotated n))) [
            | inl (x, q) ↦ IsCompute-ok n (without_self n.parameters) refl q
            | inr (e, q) ↦
                absurd
                  (elim (Result-cases
                    (check_initial (without_self m.parameters) (is_annotated m))) [
                      | inl (y, r) ↦ ground (arith, a, b, q, r)
                      | inr (y, r) ↦ ground (arith, a, b, r)
                    ])
          ];
    }
  ]
]

-- What `Transpiler._validate` relies on: a class that passes has a state type.
pub validate-get_state_type :
    (c : AggregateClass) {w : List String}
    → validate c ≡ ok w
    → (a : Annotation) × (get_state_type c ≡ ok a)
unfolding get_state_type signature_of
validate-get_state_type c h =
    let v = validate-ok c h in
    elim (Option-cases v.init.return_annotation) [
      | inl n ↦ absurd (ground (arith, v.is_initial, n))
      | inr (a, q) ↦ (a, ground (arith, v.has_init, q))
    ]
