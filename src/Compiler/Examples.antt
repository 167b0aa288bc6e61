-- ===== src/Compiler/Examples.antt =====
-- The compiler in a world where every file is there and programs with a text compile.
use Prim.Native.String.{◌++◌ as str_append}
use fcpp_bridge.Prelude.{
  ℕ, ◌+◌, ◌-◌, ◌≡◌, refl, true, false, none, some, List, [], ◌∷◌, string_key, String, ◌==◌, ==-self,
  arith, if◌then◌else◌,
}
use fcpp_bridge.Compiler.Diagnostics.{
  CompilationDiagnostic, Reading, summary_lines, error_lines, diagnostic_text,
}
use fcpp_bridge.Prelude.Dict.{Dict, lookup, has, insert, has-insert, lookup-insert}
use fcpp_bridge.Ipc.Exec.{ok, err, file_not_found}
use fcpp_bridge.Compiler.Manifest.{IsDisk, IsClean, has_char, open_cache-store}
use fcpp_bridge.Compiler.{
  Finished, Toolchain, Compiler, CompilationResult, lookup_binary, build, judge_run, compile,
  get_or_compile, save_manifest, store, open_cache, ProgramCache,
}
use fcpp_bridge.Compiler.Caching.{get_or_compile_again}

abbrev tick : ℕ → ℕ
tick w = w

abbrev finished : Finished
finished = record { returncode = 0; stderr = ""; stdout = "" }

-- The state is the number of calls so far; a process that is run after ten calls fails.
instance abbrev machine : Toolchain ℕ
machine = record {
  exists = λ path w. true;
  write_text = λ path content w. (ok tt, w + 1);
  glob_all = λ dir w. [];
  unlink = λ path w. (ok tt, w + 1);
  read_text = λ path w. (ok "", w);
  mkdir = λ path w. (ok tt, w);
  fcpp_include = λ w. some "/fcpp";
  system = λ w. "Darwin";
  has_lld = λ w. false;
  run = λ cmd w. (ok (record finished { returncode = w - 10 }), w + 1);
  clock = λ w. w;
  hash = λ content. "h";
  path_join = λ dir name. str_append dir (str_append "/" name);
  text_of = λ e. "";
  strip = λ s. s;
  as_path = λ s. s;
}

abbrev compiler : Compiler
compiler = record {
  cache_dir = "build";
  cpp_dir = "cpp";
  gcc_path = "g++";
  std = "c++26";
  opt_level = "2";
  extra_includes = [];
  cache = record { cache_dir = "build"; manifest = [] };
}

abbrev built : CompilationResult
built = record {
  success = true;
  binary_path = some "out";
  stderr = "";
  stdout = "";
  compile_time_seconds = 1;
}

get_or_compile_again_example :
    let after = (get_or_compile "code" "first" (compiler, tick 0)).1 in
    get_or_compile "code" "second" after ≡ (ok "build/first_h", after)
unfolding get_or_compile build compile judge_run lookup_binary store save_manifest lookup
get_or_compile_again_example =
    get_or_compile_again "code" "first" "second" compiler (tick 0) {binary = "build/first_h"} refl
      refl

abbrev two_errors : List CompilationDiagnostic
two_errors =
    record { file = "a.cpp"; line = "3"; column = "1"; level = "error"; message = "no" }
    ∷ record { file = "a.cpp"; line = "4"; column = "1"; level = "error"; message = "no" }
    ∷ []

abbrev reading : Reading
reading = record {
  splitlines = λ s. s ∷ [];
  strip = λ s. s;
  diagnostic = λ s. none;
  show = λ n. "some";
}

summary_of_two :
    summary_lines reading two_errors 1
    ≡ "some compilation error(s):" ∷ "  a.cpp:3:1: error: no" ∷ "  ... and some more error(s)" ∷ []
unfolding summary_lines error_lines diagnostic_text
summary_of_two = refl

-- Files by their paths; every directory is there.
instance abbrev files : Toolchain (Dict String String)
files = record {
  exists = has;
  write_text = λ path content w. (ok tt, insert path content w);
  glob_all = λ dir w. [];
  unlink = λ path w. (ok tt, w);
  read_text =
      λ path w. (elim (lookup path w) [ none ↦ err file_not_found | some content ↦ ok content ], w);
  mkdir = λ path w. (ok tt, w);
  fcpp_include = λ w. none;
  system = λ w. "Linux";
  has_lld = λ w. false;
  run = λ cmd w. (ok finished, w);
  clock = λ w. 0;
  hash = λ content. if content == "code" then "0a" else "0b";
  path_join = λ dir name. str_append dir (str_append "/" name);
  text_of = λ e. "";
  strip = λ s. s;
  as_path = λ s. s;
}

files-IsDisk : IsDisk (Dict String String)
unfolding has insert lookup
files-IsDisk = record {
  write_exists = λ path content w e. ground (arith, has-insert path path content w, ==-self path);
  write_read =
      λ path content w e h. ground (arith, lookup-insert path path content w, ==-self path);
  write_mkdir = λ dir name content w e. refl;
  mkdir_exists = λ dir path w e. e;
  mkdir_read = λ dir path content w e. e;
}

abbrev known : ProgramCache
known = record { cache_dir = "build"; manifest = ("0b", "build/a:b") ∷ [] }

abbrev nothing_written : Dict String String
nothing_written = []

open_cache-store_example :
    ((open_cache "build" (store "code" "build/p" (known, nothing_written)).1.1).0
      ≡ ok (store "code" "build/p" (known, nothing_written)).1.0)
    × (lookup_binary
          (λ content. if content == "code" then "0a" else "0b")
          "code"
          (store "code" "build/p" (known, nothing_written)).1.0
        ≡ some "build/p")
unfolding store save_manifest insert IsClean has_char has
open_cache-store_example =
    open_cache-store files-IsDisk "code" "build/p" known nothing_written
      (refl, refl, refl, refl, refl, refl, (refl, refl, refl, refl, refl, refl, tt)) (refl, tt) refl
      refl
