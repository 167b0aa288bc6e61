-- ===== src/Dsl/Headers.antt =====
-- The headers that an inferred C++ type asks for, against the classes that its annotation names.
use fcpp_bridge.Prelude.{
  String, Bool, false, Option, List, [], ◌∷◌, ◌++◌, ◌||◌, ◌==◌, ◌≡◌, refl, arith, string_key,
  if◌then◌else◌, subst,
}
use fcpp_bridge.Ipc.Exec.{Result, ok, err, Exc}
use fcpp_bridge.Transpiler.Visitor.{member}
use fcpp_bridge.Transpiler.Reports.{IsDistinct, member-append, snoc-IsDistinct}
use fcpp_bridge.Dsl.CppTypes.{
  CppType, required_includes, includes_or_empty, none_if_empty, add_seen, merge, merge_into,
}
use fcpp_bridge.Dsl.Annotations.{
  Annotation, Annotations, Members, Builtin, builtin, proxy_class, bound_proxy, template_param,
  type_var, generic, union, none_type, dataclass, annotated_class, named, int_literal, nameless,
  nil, cons, no_member, member_of, list_generic, tuple_generic, dict_generic, set_generic,
  frozenset_generic, proxy_header, str, bytes,
}
use fcpp_bridge.Dsl.Infer.{◌>>=◌, template, includes_of}

-- The headers that a type asks for
abbrev pub headers : CppType → List String
headers t = includes_or_empty (required_includes t)

unfoldable pub any_asks : String → List CppType → Bool
any_asks h [] = false
any_asks h (t ∷ ts) = member h (headers t) || any_asks h ts

unfoldable pub builtin_headers : Builtin → List String
builtin_headers str = "<string>" ∷ []
builtin_headers bytes = "<vector>" ∷ "<cstdint>" ∷ []
builtin_headers b = []

unfoldable pub union_header : Annotations → String
union_header (cons none_type (cons none_type nil)) = "<variant>"
union_header (cons none_type (cons b nil)) = "<optional>"
union_header (cons a (cons none_type nil)) = "<optional>"
union_header as_list = "<variant>"

-- Does a class that stands in the annotation need the header `h`?
unfoldable mutual
  pub needs : String → Annotation → Bool
  needs h (builtin b) = member h (builtin_headers b)
  needs h (proxy_class p) = "<any>" == h
  needs h (bound_proxy p args) = (proxy_header p == h) || needs_any h args
  needs h (template_param x) = false
  needs h (type_var x) = false
  needs h (generic list_generic nil) = "<vector>" == h
  needs h (generic list_generic (cons a as_list)) = ("<vector>" == h) || needs h a
  needs h (generic tuple_generic args) = ("<tuple>" == h) || needs_any h args
  needs h (generic dict_generic (cons a (cons b as_list))) =
      ("<map>" == h) || (needs h a || needs h b)
  needs h (generic dict_generic args) = ("<map>" == h) || ("<string>" == h)
  needs h (generic set_generic nil) = "<set>" == h
  needs h (generic set_generic (cons a as_list)) = ("<set>" == h) || needs h a
  needs h (generic frozenset_generic nil) = "<set>" == h
  needs h (generic frozenset_generic (cons a as_list)) = ("<set>" == h) || needs h a
  needs h (union args) = (union_header args == h) || needs_any h args
  needs h none_type = false
  needs h (dataclass x ms) = needs_member h ms
  needs h (annotated_class x ms) = needs_member h ms
  needs h (named x) = false
  needs h (int_literal n) = false
  needs h nameless = false

  pub needs_any : String → Annotations → Bool
  needs_any h nil = false
  needs_any h (cons a as_list) = needs h a || needs_any h as_list

  pub needs_member : String → Members → Bool
  needs_member h no_member = false
  needs_member h (member_of x a ms) = needs h a || needs_member h ms

pub member-add_seen :
    (h : String) (seen is_list : List String)
    → member h (add_seen seen is_list) ≡ (member h seen || member h is_list)
unfolding add_seen member
member-add_seen h seen [] = ground arith
member-add_seen h seen (i ∷ is_list) = ground (
  arith,
  member-add_seen h (if member i seen then seen else seen ++ i ∷ []) is_list,
  member-append h seen (i ∷ []),
  string_key.same_iff i h,
)

pub add_seen-IsDistinct :
    (seen is_list : List String) → IsDistinct seen → IsDistinct (add_seen seen is_list)
unfolding add_seen
add_seen-IsDistinct seen [] d = d
add_seen-IsDistinct seen (i ∷ is_list) d = ground (
  arith,
  add_seen-IsDistinct (if member i seen then seen else seen ++ i ∷ []) is_list,
  snoc-IsDistinct i seen,
)

pub none_if_empty_lem : (xs : List String) → includes_or_empty (none_if_empty xs) ≡ xs
none_if_empty_lem [] = refl
none_if_empty_lem (x ∷ xs) = refl

member-merge_into :
    (h : String) (seen : List String) (ts : List CppType)
    → member h (merge_into seen (includes_of ts)) ≡ (member h seen || any_asks h ts)
unfolding merge_into includes_of any_asks
member-merge_into h seen [] = ground arith
member-merge_into h seen (t ∷ ts) =
    ground (
      arith,
      member-merge_into h (add_seen seen (headers t)) ts,
      member-add_seen h seen (headers t),
    )

pub merge_into-IsDistinct :
    (seen : List String) (rs : List (Option (List String)))
    → IsDistinct seen
    → IsDistinct (merge_into seen rs)
unfolding merge_into
merge_into-IsDistinct seen [] d = d
merge_into-IsDistinct seen (r ∷ rs) d =
    merge_into-IsDistinct (add_seen seen (includes_or_empty r)) rs
      (add_seen-IsDistinct seen (includes_or_empty r) d)

-- A template asks for its header and for what its arguments ask for.
pub member-template :
    (h name : String) (std : Option String) (header : String) (ts : List CppType)
    → member h (headers (template name std header ts)) ≡ ((header == h) || any_asks h ts)
unfolding template merge merge_into add_seen member
member-template h name std header ts = ground (
  arith,
  none_if_empty_lem (merge_into (header ∷ []) (includes_of ts)),
  member-merge_into h (header ∷ []) ts,
)

-- What holds of a value that a result may hold
pub record Ensures {A : Type 0} (P : A → Type 0) (r : Result A) : Type 0 where
  pub holds : (a : A) → r ≡ ok a → P a

pub Ensures-ok : {A : Type 0} {P : A → Type 0} (a : A) → P a → Ensures P (ok a)
Ensures-ok {P} a p = record { holds = λ b q. subst P (ground arith) p }

pub Ensures-err : {A : Type 0} {P : A → Type 0} (e : Exc) → Ensures P (err e)
Ensures-err e = record { holds = λ b q. absurd (ground arith) }

pub Ensures-bind :
    {A B : Type 0} {P : A → Type 0} {Q : B → Type 0} (m : Result A) {f : A → Result B}
    → Ensures P m
    → ((a : A) → P a → Ensures Q (f a))
    → Ensures Q (m >>= f)
Ensures-bind (ok a) h k = k a (h.holds a refl)
Ensures-bind (err e) h k = record { holds = λ b q. absurd (ground arith) }
