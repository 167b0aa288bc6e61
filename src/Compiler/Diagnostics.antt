-- ===== src/Compiler/Diagnostics.antt =====
-- compiler/compilation_error_parser.py and compilation_diagnostic.py: the errors of a compiler run.
use fcpp_bridge.Prelude.{
  ℕ, ◌-◌, String, Bool, true, false, Option, none, some, List, [], ◌∷◌, ◌++◌, ◌==◌, string_key,
  if◌then◌else◌, ltb, length, take,
}
use fcpp_bridge.Transpiler.Text.{◌<>◌, join, starts_with}

-- The line and the column by the text that `str` gives of them. The field `context_line`, which
-- nothing reads or sets, is left out.
pub record CompilationDiagnostic : Type 0 where
  pub file : String
  pub line : String
  pub column : String
  pub level : String
  pub message : String

-- CompilationDiagnostic.__str__
unfoldable pub diagnostic_text : CompilationDiagnostic → String
diagnostic_text d =
    d.file <> ":" <> d.line <> ":" <> d.column <> ": " <> d.level <> ": " <> d.message

-- `str.splitlines`, `str.strip`, the regular expression for a diagnostic, and `str` of a number
pub record Reading : Type 0 where
  pub splitlines : String → List String
  pub strip : String → String
  pub diagnostic : String → Option CompilationDiagnostic
  pub show : ℕ → String

abbrev pub skip_prefixes : List String
skip_prefixes =
    "In file included from" ∷ "                 from" ∷ "In instantiation of" ∷ "required from"
    ∷ "required by" ∷ []

unfoldable pub starts_with_any : String → List String → Bool
starts_with_any s [] = false
starts_with_any s (p ∷ ps) = if starts_with s p then true else starts_with_any s ps

-- errors_only
unfoldable pub errors_only : List CompilationDiagnostic → List CompilationDiagnostic
errors_only [] = []
errors_only (d ∷ ds) = if d.level == "error" then d ∷ errors_only ds else errors_only ds

unfoldable pub error_lines : List CompilationDiagnostic → List String
error_lines [] = []
error_lines (d ∷ ds) = ("  " <> diagnostic_text d) ∷ error_lines ds

module _ (r : Reading) where
  -- What one line adds to `diagnostics`
  unfoldable pub parse_line : String → List CompilationDiagnostic
  parse_line line = if starts_with_any line skip_prefixes then [] else elim (r.diagnostic line) [
    | none ↦ []
    | some d ↦ record d { message = r.strip d.message } ∷ []
  ]

  unfoldable pub parse_lines : List String → List CompilationDiagnostic
  parse_lines [] = []
  parse_lines (l ∷ ls) = parse_line (r.strip l) ++ parse_lines ls

  -- CompilationErrorParser.parse
  unfoldable pub parse : String → List CompilationDiagnostic
  parse stderr = parse_lines (r.splitlines stderr)

  -- The lines of a summary of at least one error
  unfoldable pub summary_lines : List CompilationDiagnostic → ℕ → List String
  unfolding error_lines
  summary_lines errors max_errors =
      (r.show (length errors) <> " compilation error(s):")
      ∷ (error_lines (take max_errors errors)
          ++ (if ltb max_errors (length errors)
              then ("  ... and " <> r.show (length errors - max_errors) <> " more error(s)") ∷ []
              else []))

  -- format_summary
  unfoldable pub format_summary : List CompilationDiagnostic → ℕ → String
  format_summary diagnostics max_errors = elim (errors_only diagnostics) [
    | [] ↦ "No errors found."
    | e ∷ es ↦ join "\n" (summary_lines (e ∷ es) max_errors)
  ]

  -- raise_if_errors, with the message of the CompilationError
  unfoldable pub raise_if_errors : String → Option String
  raise_if_errors stderr = elim (errors_only (parse stderr)) [
    | [] ↦ none
    | e ∷ es ↦ some (format_summary (parse stderr) 5)
  ]
