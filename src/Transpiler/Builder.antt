-- ===== src/Transpiler/Builder.antt =====
-- `CppCodeBuilder` (transpiler/cpp_code_builder.py).
use fcpp_bridge.Prelude.{
  String, List, [], ◌∷◌, ◌++◌, ◌||◌, ◌==◌, ◌≡◌, arith, string_key, if◌then◌else◌,
}
use fcpp_bridge.Transpiler.Text.{◌<>◌, join}
use fcpp_bridge.Transpiler.Visitor.{member}
use fcpp_bridge.Transpiler.Reports.{IsDistinct, member-append, snoc-IsDistinct}

pub record CppCodeBuilder : Type 0 where
  pub includes : List String
  pub declarations : List String
  pub main_aggregate : String
  pub helpers : List String

abbrev pub new_builder : CppCodeBuilder
new_builder = record { includes = []; declarations = []; main_aggregate = ""; helpers = [] }

unfoldable pub add_include : String → CppCodeBuilder → CppCodeBuilder
add_include header b =
    if member header b.includes then b else record b { includes = b.includes ++ header ∷ [] }

unfoldable pub add_declaration : String → CppCodeBuilder → CppCodeBuilder
add_declaration decl b = record b { declarations = b.declarations ++ decl ∷ [] }

unfoldable pub set_main_aggregate : String → CppCodeBuilder → CppCodeBuilder
set_main_aggregate code b = record b { main_aggregate = code }

unfoldable pub add_helper : String → CppCodeBuilder → CppCodeBuilder
add_helper func b = record b { helpers = b.helpers ++ func ∷ [] }

-- for header in headers: builder.add_include(header)
unfoldable pub add_includes : List String → CppCodeBuilder → CppCodeBuilder
add_includes [] b = b
add_includes (h ∷ hs) b = add_includes hs (add_include h b)

include_lines : List String → List String
include_lines [] = []
include_lines (i ∷ is_list) = ("#include " <> i) ∷ include_lines is_list

-- Each fragment is followed by an empty line.
spaced : List String → List String
spaced [] = []
spaced (d ∷ ds) = d ∷ "" ∷ spaced ds

blank_after : List String → List String
blank_after [] = []
blank_after (i ∷ is_list) = "" ∷ []

abbrev pub if_text : String → List String
if_text String.[] = []
if_text (String.◌∷◌ c s) = String.◌∷◌ c s ∷ []

unfoldable pub build : CppCodeBuilder → String
unfolding include_lines spaced blank_after
build b = join "\n" (
    include_lines b.includes
    ++ (blank_after b.includes
        ++ (spaced b.declarations ++ (spaced b.helpers ++ if_text b.main_aggregate))))

pub member-add_include :
    (h header : String) (b : CppCodeBuilder)
    → member h (add_include header b).includes ≡ ((header == h) || member h b.includes)
unfolding add_include member
member-add_include h header b =
    ground (arith, member-append h b.includes (header ∷ []), string_key.same_iff header h)

pub member-add_includes :
    (h : String) (hs : List String) (b : CppCodeBuilder)
    → member h (add_includes hs b).includes ≡ (member h b.includes || member h hs)
unfolding add_includes member
member-add_includes h [] b = ground arith
member-add_includes h (x ∷ hs) b =
    ground (arith, member-add_includes h hs (add_include x b), member-add_include h x b)

pub add_include-IsDistinct :
    (header : String) (b : CppCodeBuilder)
    → IsDistinct b.includes
    → IsDistinct (add_include header b).includes
unfolding add_include
add_include-IsDistinct header b d = ground (arith, snoc-IsDistinct header b.includes)

pub add_includes-IsDistinct :
    (hs : List String) (b : CppCodeBuilder)
    → IsDistinct b.includes
    → IsDistinct (add_includes hs b).includes
unfolding add_includes
add_includes-IsDistinct [] b d = d
add_includes-IsDistinct (h ∷ hs) b d =
    add_includes-IsDistinct hs (add_include h b) (add_include-IsDistinct h b d)
