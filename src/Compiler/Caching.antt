-- ===== src/Compiler/Caching.antt =====
-- `get_or_compile` and the cache.
use fcpp_bridge.Prelude.{
  ℕ, String, ◌≡◌, true, false, none, some, List, [], arith, string_key, inl, inr, ==-self,
  Bool-cases,
}
use fcpp_bridge.Prelude.Dict.{lookup-insert}
use fcpp_bridge.Ipc.Exec.{Exc, ok, err, compilation_error, Result-cases}
use Prim.Native.String.{◌++◌ as str_append}
use fcpp_bridge.Compiler.{
  Finished, Toolchain, Compiler, CompilationResult, lookup_binary, judge_error, save_manifest,
  store, command, judge_run, compile, file_stem, build, get_or_compile,
}

judge_error_fails : (t : Exc → String) (e : Exc) → (judge_error t e).success ≡ false
judge_error_fails t e = ground arith

module _ {W : Type 0} ⦃o : Toolchain W⦄ where
  judge_run_success :
      (output : String) (start : ℕ) (f : Finished) (w : W)
      → (judge_run output start f w).success ≡ true
      → ((judge_run output start f w).binary_path ≡ some output)
        × (o.exists output w ≡ true)
        × (f.returncode ≡ 0)
  unfolding judge_run
  judge_run_success output start f w s = (ground arith, ground arith, ground arith)

  -- A result of `compile` that says success names the output file, which exists then, and comes from a
  -- source file that was there and a process that returned 0.
  pub compile_success :
      (c : Compiler) (cpp_file output : String) (flags : List String) (w : W)
      {r : CompilationResult}
      → (compile c cpp_file output flags w).0 ≡ ok r
      → r.success ≡ true
      → (r.binary_path ≡ some output)
        × (o.exists cpp_file w ≡ true)
        × (o.exists output (compile c cpp_file output flags w).1 ≡ true)
        × ((f : Finished) × ((o.run (command c cpp_file output flags w) w).0 ≡ ok f)
            × (f.returncode ≡ 0))
  unfolding compile
  compile_success c cpp_file output flags w {r} e s = elim (Bool-cases (o.exists cpp_file w)) [
    | inr x ↦ absurd (ground (arith, x))
    | inl x ↦ elim (Result-cases (o.run (command c cpp_file output flags w) w).0) [
      | inr (y, q) ↦ absurd (ground (arith, x, q, judge_error_fails o.text_of y))
      | inl (f, q) ↦
          let v = (o.run (command c cpp_file output flags w) w).1 in
          let judged : judge_run output (o.clock w) f v ≡ r = ground (arith, x, q) in
          let k = judge_run_success output (o.clock w) f v (rw judged s) in
          (ground (arith, k, judged), x, ground (arith, x, q, k), (f, q, k.2))
    ]
  ]

  build_cached :
      (code name : String) (c : Compiler) (w : W) {binary : String}
      → (build code name (c, w)).0 ≡ ok binary
      → lookup_binary o.hash code (build code name (c, w)).1.0.cache ≡ some binary
  unfolding build lookup_binary store save_manifest
  build_cached code name c w {binary} e =
      let key = o.hash code in
      let path = o.path_join c.cache_dir (file_stem name key) in
      ground (arith, lookup-insert key key path c.cache.manifest, ==-self key)

  -- When `get_or_compile` returns a path, that path is in the cache for the code afterwards.
  pub get_or_compile_cached :
      (code name : String) (c : Compiler) (w : W) {binary : String}
      → (get_or_compile code name (c, w)).0 ≡ ok binary
      → lookup_binary o.hash code (get_or_compile code name (c, w)).1.0.cache ≡ some binary
  unfolding get_or_compile
  get_or_compile_cached code name c w {binary} e =
      ground (arith, build_cached code name c w {binary = binary})

  -- After `get_or_compile` returned a path, the same code gets the same path again, under any program
  -- name, and nothing is compiled or written, as long as the file is there.
  pub get_or_compile_again :
      (code name name' : String) (c : Compiler) (w : W) {binary : String}
      → (get_or_compile code name (c, w)).0 ≡ ok binary
      → o.exists binary (get_or_compile code name (c, w)).1.1 ≡ true
      → let after = (get_or_compile code name (c, w)).1 in
        get_or_compile code name' after ≡ (ok binary, after)
  unfolding get_or_compile
  get_or_compile_again code name name' c w {binary} e x =
      let (d, v) = (get_or_compile code name (c, w)).1 in
      ground (arith, get_or_compile_cached code name c w e)

  -- When a program that is not cached does not compile, `get_or_compile` raises a CompilationError and
  -- the compiler, its cache included, is as before.
  pub get_or_compile_failure :
      (code name : String) (c : Compiler) (w v : W) {r : CompilationResult}
      → lookup_binary o.hash code c.cache ≡ none
      → o.write_text
          (o.path_join c.cpp_dir (str_append (file_stem name (o.hash code)) ".cpp"))
          code
          w
        ≡ (ok tt, v)
      → (compile c
          (o.path_join c.cpp_dir (str_append (file_stem name (o.hash code)) ".cpp"))
          (o.path_join c.cache_dir (file_stem name (o.hash code)))
          []
          v).0
        ≡ ok r
      → r.success ≡ false
      → let (x, (d, w')) = get_or_compile code name (c, w) in (x ≡ err compilation_error) × (d ≡ c)
  unfolding get_or_compile build
  get_or_compile_failure code name c w v miss written ran bad = ground arith
