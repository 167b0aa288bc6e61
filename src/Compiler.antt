-- ===== src/Compiler.antt =====
-- compiler/compiler_core.py and program_cache.py: the compiler and its cache of binaries.
pub mod Caching
pub mod Diagnostics
pub mod Examples
pub mod Manifest
use Prim.Native.String.{◌++◌ as str_append}
use fcpp_bridge.Prelude.{
  ℕ, ◌+◌, ◌-◌, String, Bool, true, false, not, ◌&&◌, ◌||◌, Option, none, some, List, [], ◌∷◌, ◌++◌,
  nat_eqb, string_key, ◌==◌, if◌then◌else◌, length,
}
use fcpp_bridge.Prelude.Dict.{Dict, lookup, insert}
use fcpp_bridge.Ipc.Exec.{
  Exc, Result, ok, err, compilation_error, timeout_expired, Exec, pure, raise, continue, ◌>>=◌,
  ◌>>◌, for_each,
}
use fcpp_bridge.Ipc.Outside.{call}
use fcpp_bridge.Transpiler.Text.{cut, split_lines}

-- What subprocess.run returns: the return code, stderr and stdout.
pub record Finished : Type 0 where
  pub returncode : ℕ
  pub stderr : String
  pub stdout : String

-- A file that `cache_dir.glob("*")` finds.
pub record FileEntry : Type 0 where
  pub path : String
  pub name : String
  pub is_file : Bool
  pub size : ℕ

-- The file system, the environment and the processes that the compiler uses.
pub record Toolchain (W : Type 0) : Type 0 where
  pub exists : String → W → Bool
  pub write_text : String → String → W → Result (Unit {0}) × W
  pub glob_all : String → W → List FileEntry
  pub unlink : String → W → Result (Unit {0}) × W
  -- path.read_text() with universal newlines, path.mkdir(parents=True, exist_ok=True)
  pub read_text : String → W → Result String × W
  pub mkdir : String → W → Result (Unit {0}) × W
  -- os.environ.get("FCPP_INCLUDE_PATH"), platform.system(), shutil.which("lld") is not None
  pub fcpp_include : W → Option String
  pub system : W → String
  pub has_lld : W → Bool
  -- subprocess.run(cmd, timeout=120)
  pub run : List String → W → Result Finished × W
  pub clock : W → ℕ
  -- sha256(...).hexdigest()[:16], dir / name, the text of an exception
  pub hash : String → String
  pub path_join : String → String → String
  pub text_of : Exc → String
  -- text.strip(), str(Path(text))
  pub strip : String → String
  pub as_path : String → String

pub record ProgramCache : Type 0 where
  pub cache_dir : String
  pub manifest : Dict String String

pub record Compiler : Type 0 where
  pub cache_dir : String
  pub cpp_dir : String
  pub gcc_path : String
  pub std : String
  pub opt_level : String
  pub extra_includes : List String
  pub cache : ProgramCache

pub record CompilationResult : Type 0 where
  pub success : Bool
  pub binary_path : Option String
  pub stderr : String
  pub stdout : String
  pub compile_time_seconds : ℕ

-- flags.extend(["-I", inc]) for each of them
unfoldable pub include_flags : List String → List String
include_flags [] = []
include_flags (inc ∷ incs) = "-I" ∷ inc ∷ include_flags incs

-- if fcpp_include: an empty text counts as absent
abbrev pub include_list : Option String → List String
include_list none = []
include_list (some inc) = if inc == "" then [] else inc ∷ []

abbrev pub failed : String → String → ℕ → CompilationResult
failed stderr stdout seconds = record {
  success = false;
  binary_path = none;
  stderr = stderr;
  stdout = stdout;
  compile_time_seconds = seconds;
}

-- "\n".join(f"{k}:{v}" for k, v in self.manifest.items())
unfoldable pub manifest_text : Dict String String → String
manifest_text [] = ""
manifest_text ((key, path) ∷ []) = str_append key (str_append ":" path)
manifest_text ((key, path) ∷ entry ∷ rest) =
    str_append key
      (str_append ":" (str_append path (str_append "\n" (manifest_text (entry ∷ rest)))))

-- A line of the manifest: `line.split(":", 1)`, if there is a colon in it
unfoldable pub load_line : (String → String) → String → Dict String String → Dict String String
load_line as_path line manifest = elim (cut ":" line) [
  | none ↦ manifest
  | some (key, path) ↦ insert key (as_path path) manifest
]

unfoldable pub load_lines :
    (String → String) → List String → Dict String String → Dict String String
load_lines as_path [] manifest = manifest
load_lines as_path (line ∷ ls) manifest = load_lines as_path ls (load_line as_path line manifest)

-- lookup(cpp_code)
unfoldable pub lookup_binary : (String → String) → String → ProgramCache → Option String
lookup_binary hash code c = lookup (hash code) c.manifest

-- the two handlers of `compile`
abbrev pub judge_error : (Exc → String) → Exc → CompilationResult
judge_error text_of timeout_expired = failed "Compilation timeout (>120s)" "" 120
judge_error text_of e = failed (text_of e) "" 0

-- f"{program_name}_{cache_key}"
abbrev pub file_stem : String → String → String
file_stem program_name key = str_append program_name (str_append "_" key)

abbrev total_size : List FileEntry → ℕ
total_size [] = 0
total_size (f ∷ fs) = (if f.is_file then f.size else 0) + total_size fs

module _ {W : Type 0} ⦃o : Toolchain W⦄ where
  -- _save_manifest()
  unfoldable pub save_manifest : Exec (ProgramCache × W) (Unit {0})
  unfolding manifest_text
  save_manifest (c, w) =
      call (o.write_text (o.path_join c.cache_dir ".cache_manifest") (manifest_text c.manifest))
        (c, w)

  -- _load_manifest()
  unfoldable pub load_manifest : String → Exec W (Dict String String)
  load_manifest dir w =
      if o.exists (o.path_join dir ".cache_manifest") w
      then (do
        text ← o.read_text (o.path_join dir ".cache_manifest")
        pure (load_lines o.as_path (split_lines (o.strip text)) []))
          w
      else (ok [], w)

  -- ProgramCache(cache_dir)
  unfoldable pub open_cache : String → Exec W ProgramCache
  open_cache dir = do
    o.mkdir dir
    manifest ← load_manifest dir
    pure (record { cache_dir = dir; manifest = manifest })

  -- store(cpp_code, binary_path)
  unfoldable pub store : String → String → Exec (ProgramCache × W) (Unit {0})
  unfolding save_manifest
  store code binary (c, w) =
      save_manifest (record c { manifest = insert (o.hash code) binary c.manifest }, w)

  abbrev uses_lld : W → Bool
  uses_lld w = (o.system w == "Windows") || ((o.system w == "Linux") && o.has_lld w)

  -- the list `cmd` of `compile`
  unfoldable pub command : Compiler → String → String → List String → W → List String
  unfolding include_flags
  command c cpp_file output extra_flags w =
      c.gcc_path
        ∷ (str_append "-std=" c.std ∷ "-Wall" ∷ "-Wextra" ∷ str_append "-O" c.opt_level ∷ []
            ++ include_flags (include_list (o.fcpp_include w))
            ++ include_flags c.extra_includes
            ++ (if uses_lld w then "-fuse-ld=lld" ∷ [] else [])
            ++ extra_flags)
      ++ cpp_file ∷ "-o" ∷ output ∷ []

  -- what `compile` makes of a process that ended, at the time it ended
  unfoldable pub judge_run : String → ℕ → Finished → W → CompilationResult
  judge_run output start f w =
      let elapsed = o.clock w - start in
      if nat_eqb f.returncode 0
      then (if o.exists output w
          then record {
            success = true;
            binary_path = some output;
            stderr = f.stderr;
            stdout = f.stdout;
            compile_time_seconds = elapsed;
          }
          else failed "Binary not created" f.stdout elapsed)
      else failed f.stderr f.stdout elapsed

  abbrev judged : String → ℕ → Result Finished × W → Result CompilationResult × W
  judged output start (ok f, w) = (ok (judge_run output start f w), w)
  judged output start (err e, w) = (ok (judge_error o.text_of e), w)

  -- compile(cpp_file, output_binary, extra_flags)
  unfoldable pub compile : Compiler → String → String → List String → Exec W CompilationResult
  unfolding command judge_run
  compile c cpp_file output extra_flags w =
      if o.exists cpp_file w
      then judged output (o.clock w) (o.run (command c cpp_file output extra_flags w) w)
      else (err compilation_error, w)

  abbrev on_cache : {A : Type 0} → Exec (ProgramCache × W) A → Exec (Compiler × W) A
  on_cache m (c, w) = let (r, (k, w')) = m (c.cache, w) in (r, (record c { cache = k }, w'))

  abbrev finish : String → String → CompilationResult → Exec (Compiler × W) String
  finish code binary result =
      if result.success
      then (do on_cache (store code binary); pure binary)
      else raise compilation_error

  -- the part of `get_or_compile` after the cache was asked
  unfoldable pub build : String → String → Exec (Compiler × W) String
  unfolding compile store
  build code program_name (c, w) =
      let key = o.hash code in
      let cpp_file = o.path_join c.cpp_dir (str_append (file_stem program_name key) ".cpp") in
      let binary = o.path_join c.cache_dir (file_stem program_name key) in
      (do
        call (o.write_text cpp_file code)
        result ← call (compile c cpp_file binary [])
        finish code binary result)
        (c, w)

  unfoldable pub get_or_compile : String → String → Exec (Compiler × W) String
  unfolding build lookup_binary
  get_or_compile code program_name (c, w) = elim (lookup_binary o.hash code c.cache) [
    | none ↦ build code program_name (c, w)
    | some binary ↦
        if o.exists binary w then (ok binary, (c, w)) else build code program_name (c, w)
  ]

  abbrev unlink_file : FileEntry → Exec (Compiler × W) (Unit {0})
  unlink_file f =
      if f.is_file && not (f.name == ".cache_manifest") then call (o.unlink f.path) else pure tt

  abbrev forget_all : Exec (Compiler × W) (Unit {0})
  forget_all (c, w) = (ok tt, (record c { cache = record c.cache { manifest = [] } }, w))

  unfoldable pub clear_cache : Exec (Compiler × W) (Unit {0})
  unfolding save_manifest for_each
  clear_cache (c, w) =
      (do for_each (o.glob_all c.cache_dir w) unlink_file; forget_all; on_cache save_manifest)
        (c, w)

  -- get_cache_stats(): the number of binaries, the bytes in the directory
  unfoldable pub get_cache_stats : Compiler → W → ℕ × ℕ
  get_cache_stats c w = (length c.cache.manifest, total_size (o.glob_all c.cache_dir w))
