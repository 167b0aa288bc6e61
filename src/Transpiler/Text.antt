-- ===== src/Transpiler/Text.antt =====
-- Python's operations on text that the transpiler uses: `join`, `split("\n")`, `startswith`.
use Prim.Native.Char.{code}
use Prim.Native.String.{◌++◌ as str_append}
use fcpp_bridge.Prelude.{
  ℕ, String, Bool, true, false, ◌&&◌, Option, none, some, List, [], ◌∷◌, nat_eqb, if◌then◌else◌,
}

infixr 65 ◌<>◌
abbrev pub ◌<>◌ : String → String → String
s <> t = str_append s t

-- sep.join(parts)
unfoldable pub join : String → List String → String
join sep [] = ""
join sep (s ∷ []) = s
join sep (s ∷ t ∷ ts) = s <> sep <> join sep (t ∷ ts)

-- s.startswith(p)
unfoldable pub starts_with : String → String → Bool
starts_with s String.[] = true
starts_with String.[] (String.◌∷◌ d p) = false
starts_with (String.◌∷◌ c s) (String.◌∷◌ d p) = nat_eqb (code c) (code d) && starts_with s p

-- The first line goes on with what stands before it.
abbrev pub prefix_first : String → List String → List String
prefix_first s [] = s ∷ []
prefix_first s (l ∷ ls) = (s <> l) ∷ ls

-- s.split("\n")
unfoldable pub split_lines : String → List String
split_lines String.[] = "" ∷ []
split_lines (String.◌∷◌ c s) =
    let rest = split_lines s in
    if nat_eqb (code c) 10 then "" ∷ rest else prefix_first (String.◌∷◌ c "") rest

abbrev pub prefix_all : String → List String → List String
prefix_all s [] = []
prefix_all s (l ∷ ls) = (s <> l) ∷ prefix_all s ls

unfoldable pub any_starts_with : String → List String → Bool
any_starts_with p [] = false
any_starts_with p (s ∷ ss) = if starts_with s p then true else any_starts_with p ss

-- What follows the prefix `p` of the text
unfoldable pub drop_prefix : String → String → String
drop_prefix String.[] s = s
drop_prefix (String.◌∷◌ d p) String.[] = ""
drop_prefix (String.◌∷◌ d p) (String.◌∷◌ c s) = drop_prefix p s

abbrev pub prepend : String → Option (String × String) → Option (String × String)
prepend c none = none
prepend c (some (before, after)) = some (c <> before, after)

-- The text before and after the first `sep`, which is not empty
unfoldable pub cut : String → String → Option (String × String)
cut sep String.[] = none
cut sep (String.◌∷◌ c s) =
    if starts_with (String.◌∷◌ c s) sep
    then some ("", drop_prefix sep (String.◌∷◌ c s))
    else prepend (String.◌∷◌ c "") (cut sep s)

-- s.split(sep)[0]
unfoldable pub before_first : String → String → String
before_first sep s = elim (cut sep s) [ none ↦ s | some (before, after) ↦ before ]

abbrev pub cons_unless_colon : ℕ → String → String → String
cons_unless_colon c s String.[] = if nat_eqb c b':' then "" else s
cons_unless_colon c s (String.◌∷◌ d r) = s <> String.◌∷◌ d r

-- s.rstrip(":")
unfoldable pub rstrip_colon : String → String
rstrip_colon String.[] = ""
rstrip_colon (String.◌∷◌ c s) = cons_unless_colon (code c) (String.◌∷◌ c "") (rstrip_colon s)
