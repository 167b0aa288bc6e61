-- ===== src/Compiler/Manifest.antt =====
-- The manifest of the cache (compiler/program_cache.py): what `_save_manifest` writes and what
-- `_load_manifest` reads again.
use Prim.Native.Char.{code}
use text.Mathlib.TextLemmas.{nil-append, cons-append, append_assoc as text_assoc}
use fcpp_bridge.Prelude.{
  ℕ, String, Bool, true, false, some, List, [], ◌∷◌, ◌++◌, ◌||◌, ◌≡◌, refl, arith, nat_eqb,
  string_key, ==-self, append_assoc, append-nil, ap, sym, subst,
}
use fcpp_bridge.Prelude.Dict.{
  Dict, has, insert, IsDict, insert_new, has-insert, insert-IsDict, lookup-insert,
}
use fcpp_bridge.Transpiler.Text.{◌<>◌, cut, split_lines, starts_with, drop_prefix}
use fcpp_bridge.Ipc.Exec.{ok}
use fcpp_bridge.Compiler.{
  Toolchain, ProgramCache, manifest_text, load_line, load_lines, load_manifest, open_cache,
  save_manifest, store, lookup_binary,
}

-- Is the character with this code in the text?
unfoldable pub has_char : ℕ → String → Bool
has_char n String.[] = false
has_char n (String.◌∷◌ c s) = nat_eqb (code c) n || has_char n s

has_char-append : (n : ℕ) (s t : String) → has_char n (s <> t) ≡ (has_char n s || has_char n t)
unfolding has_char
has_char-append n String.[] t = ap (has_char n) (nil-append t)
has_char-append n (String.◌∷◌ c s) t = ground (arith, cons-append c s t, has_char-append n s t)

-- A text up to its first line feed is the first line.
split_lines-line :
    (s t : String) → has_char 10 s ≡ false → split_lines (s <> "\n" <> t) ≡ s ∷ split_lines t
unfolding has_char split_lines
split_lines-line String.[] t h =
    ground (arith, nil-append ("\n" <> t), nil-append t, cons-append "\n" "" t)
split_lines-line (String.◌∷◌ c s) t h =
    ground
      (arith, cons-append c s ("\n" <> t), split_lines-line s t, cons-append c "" s, nil-append s)

split_lines-last : (s : String) → has_char 10 s ≡ false → split_lines s ≡ s ∷ []
unfolding has_char split_lines
split_lines-last String.[] h = refl
split_lines-last (String.◌∷◌ c s) h =
    ground (arith, split_lines-last s, cons-append c "" s, nil-append s)

cut-colon : (k p : String) → has_char 58 k ≡ false → cut ":" (k <> ":" <> p) ≡ some (k, p)
unfolding has_char cut starts_with drop_prefix
cut-colon String.[] p h = ground (arith, nil-append (":" <> p), nil-append p, cons-append ":" "" p)
cut-colon (String.◌∷◌ c k) p h =
    ground (arith, cons-append c k (":" <> p), cut-colon k p, cons-append c "" k, nil-append k)

-- The line of an entry
abbrev pub entry_line : String × String → String
entry_line (key, path) = key <> ":" <> path

unfoldable pub entry_lines : Dict String String → List String
entry_lines [] = []
entry_lines ((key, path) ∷ m) = entry_line (key, path) ∷ entry_lines m

-- No key has a colon, neither a key nor a path has a line feed or a carriage return, and every path
-- is in the form in which a `Path` is written.
unfoldable pub IsClean : (String → String) → Dict String String → Type 0
IsClean as_path [] = Unit
IsClean as_path ((key, path) ∷ m) =
    (has_char 58 key ≡ false)
    × (has_char 10 key ≡ false)
    × (has_char 10 path ≡ false)
    × (has_char 13 key ≡ false)
    × (has_char 13 path ≡ false)
    × (as_path path ≡ path)
    × IsClean as_path m

entry_line-has_char :
    (key path : String)
    → has_char 10 key ≡ false
    → has_char 10 path ≡ false
    → has_char 10 (entry_line (key, path)) ≡ false
unfolding has_char
entry_line-has_char key path h g =
    ground (arith, has_char-append 10 key (":" <> path), has_char-append 10 ":" path)

split_lines-manifest_text :
    (as_path : String → String) (entry : String × String) (m : Dict String String)
    → IsClean as_path (entry ∷ m)
    → split_lines (manifest_text (entry ∷ m)) ≡ entry_lines (entry ∷ m)
unfolding manifest_text entry_lines IsClean
split_lines-manifest_text as_path (key, path) [] h =
    split_lines-last (entry_line (key, path)) (entry_line-has_char key path h.1 h.2)
split_lines-manifest_text as_path (key, path) (entry ∷ m) h =
    let line = entry_line (key, path) in
    let tail = "\n" <> manifest_text (entry ∷ m) in
    ground (
      arith,
      text_assoc key (":" <> path) tail,
      text_assoc ":" path tail,
      split_lines-line line (manifest_text (entry ∷ m)) (entry_line-has_char key path h.1 h.2),
      split_lines-manifest_text as_path entry m h.6,
    )

-- None of the keys is in the dict `d`.
unfoldable AllNew : Dict String String → Dict String String → Type 0
AllNew [] d = Unit
AllNew ((key, path) ∷ m) d = (has key d ≡ false) × AllNew m d

AllNew-nothing : (m : Dict String String) → AllNew m []
unfolding AllNew has
AllNew-nothing [] = tt
AllNew-nothing ((key, path) ∷ m) = (refl, AllNew-nothing m)

AllNew-insert :
    (key path : String) (m d : Dict String String)
    → has key m ≡ false
    → AllNew m d
    → AllNew m (insert key path d)
unfolding AllNew has
AllNew-insert key path [] d h n = tt
AllNew-insert key path ((k, p) ∷ m) d h n = (
  ground (arith, has-insert key k path d, string_key.same_iff k key, string_key.same_iff key k),
  AllNew-insert key path m d (ground arith) n.1,
)

load_lines-entry_lines :
    (as_path : String → String) (m d : Dict String String)
    → IsClean as_path m
    → IsDict m
    → AllNew m d
    → load_lines as_path (entry_lines m) d ≡ d ++ m
unfolding load_lines load_line entry_lines IsClean AllNew
load_lines-entry_lines as_path [] d c i n = sym (append-nil d)
load_lines-entry_lines as_path ((key, path) ∷ m) d c i n = ground (
  arith,
  cut-colon key path c.0,
  insert_new key path d n.0,
  load_lines-entry_lines as_path m (insert key path d) c.6 i.1 (AllNew-insert key path m d i.0 n.1),
  append_assoc d ((key, path) ∷ []) m,
)

IsClean-insert :
    (as_path : String → String) (key path : String) (m : Dict String String)
    → IsClean as_path ((key, path) ∷ [])
    → IsClean as_path m
    → IsClean as_path (insert key path m)
unfolding IsClean insert
IsClean-insert as_path key path [] a h = a
IsClean-insert as_path key path ((k, p) ∷ m) a h =
    ground (arith, IsClean-insert as_path key path m a h.6)

-- There is no carriage return in the text of a manifest.
manifest_text-has_char :
    (as_path : String → String) (m : Dict String String)
    → IsClean as_path m
    → has_char 13 (manifest_text m) ≡ false
unfolding manifest_text has_char IsClean
manifest_text-has_char as_path [] h = refl
manifest_text-has_char as_path ((key, path) ∷ []) h =
    ground (arith, has_char-append 13 key (":" <> path), has_char-append 13 ":" path)
manifest_text-has_char as_path ((key, path) ∷ entry ∷ rest) h =
    let text = manifest_text (entry ∷ rest) in
    ground (
      arith,
      has_char-append 13 key (":" <> path <> "\n" <> text),
      has_char-append 13 ":" (path <> "\n" <> text),
      has_char-append 13 path ("\n" <> text),
      has_char-append 13 "\n" text,
      manifest_text-has_char as_path (entry ∷ rest) h.6,
    )

-- Reading back what was written gives the same dict.
load_lines-manifest_text :
    (as_path : String → String) (m : Dict String String)
    → IsClean as_path m
    → IsDict m
    → load_lines as_path (split_lines (manifest_text m)) [] ≡ m
unfolding manifest_text split_lines load_lines load_line cut
load_lines-manifest_text as_path [] c i = refl
load_lines-manifest_text as_path (entry ∷ m) c i =
    subst (λ ls. load_lines as_path ls [] ≡ entry ∷ m)
      (sym (split_lines-manifest_text as_path entry m c))
      (load_lines-entry_lines as_path (entry ∷ m) [] c i (AllNew-nothing (entry ∷ m)))

-- What the file system keeps: a text that was written is there to be read, as it was written if it
-- has no carriage return, which Python reads as a line feed, and a directory with a file in it can
-- be made again without harm to a file.
pub record IsDisk (W : Type 0) ⦃o : Toolchain W⦄ : Type 0 where
  pub write_exists :
      (path text : String) (w : W)
      → (o.write_text path text w).0 ≡ ok tt
      → o.exists path (o.write_text path text w).1 ≡ true
  pub write_read :
      (path text : String) (w : W)
      → (o.write_text path text w).0 ≡ ok tt
      → has_char 13 text ≡ false
      → (o.read_text path (o.write_text path text w).1).0 ≡ ok text
  pub write_mkdir :
      (dir name text : String) (w : W)
      → (o.write_text (o.path_join dir name) text w).0 ≡ ok tt
      → (o.mkdir dir (o.write_text (o.path_join dir name) text w).1).0 ≡ ok tt
  pub mkdir_exists :
      (dir path : String) (w : W) → o.exists path w ≡ true → o.exists path (o.mkdir dir w).1 ≡ true
  pub mkdir_read :
      (dir path text : String) (w : W)
      → (o.read_text path w).0 ≡ ok text
      → (o.read_text path (o.mkdir dir w).1).0 ≡ ok text

module _ {W : Type 0} ⦃o : Toolchain W⦄ where
  open_cache-save_manifest :
      (d : IsDisk W) (c : ProgramCache) (w : W)
      → IsClean o.as_path c.manifest
      → IsDict c.manifest
      → o.strip (manifest_text c.manifest) ≡ manifest_text c.manifest
      → (save_manifest (c, w)).0 ≡ ok tt
      → (open_cache c.cache_dir (save_manifest (c, w)).1.1).0 ≡ ok c
  unfolding save_manifest open_cache load_manifest
  open_cache-save_manifest d c w clean i s e =
      let path = o.path_join c.cache_dir ".cache_manifest" in
      let text = manifest_text c.manifest in
      let v = (o.write_text path text w).1 in
      ground (
        arith,
        d.write_exists path text w,
        d.write_read path text w,
        manifest_text-has_char o.as_path c.manifest clean,
        d.write_mkdir c.cache_dir ".cache_manifest" text w,
        d.mkdir_exists c.cache_dir path v,
        d.mkdir_read c.cache_dir path text v,
        s,
        load_lines-manifest_text o.as_path c.manifest clean i,
      )

  -- A cache that is opened after a successful `store` is the cache that stored: it finds the binary
  -- of the code, and knows every other entry. No key in it has a colon, no key and no path has a line
  -- feed or a carriage return, no path changes as a `Path`, and the text of the manifest has no white
  -- space around it.
  pub open_cache-store :
      (d : IsDisk W) (code binary : String) (c : ProgramCache) (w : W)
      → IsClean o.as_path ((o.hash code, binary) ∷ c.manifest)
      → IsDict c.manifest
      → (let m = insert (o.hash code) binary c.manifest in
          o.strip (manifest_text m) ≡ manifest_text m)
      → (store code binary (c, w)).0 ≡ ok tt
      → ((open_cache c.cache_dir (store code binary (c, w)).1.1).0
          ≡ ok (store code binary (c, w)).1.0)
        × (lookup_binary o.hash code (store code binary (c, w)).1.0 ≡ some binary)
  unfolding store lookup_binary save_manifest IsClean
  open_cache-store d code binary c w clean i s e =
      let key = o.hash code in
      let stored = record c { manifest = insert key binary c.manifest } in
      let entry : IsClean o.as_path ((key, binary) ∷ []) =
        (clean.0, clean.1, clean.2, clean.3, clean.4, clean.5, tt) in
      let kept = IsClean-insert o.as_path key binary c.manifest entry clean.6 in
      (
        open_cache-save_manifest d stored w kept (insert-IsDict key binary c.manifest i) s e,
        ground (arith, lookup-insert key key binary c.manifest, ==-self key),
      )
