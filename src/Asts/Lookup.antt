-- ===== src/Asts/Lookup.antt =====
-- internal/asts: the package of an import, and the name and path that a directory would have.
use goen.Prelude.{List, [], ◌∷◌, reverse, Str, str_eq, ◌==◌, if◌then◌else◌, Option, none, some, ℕ}
use goen.Go.Result.{Result, ok, err, panic, message, ◌>>=◌}
use goen.Go.Map.{lookup}
use goen.Asts.{GoTools, ImportSpec, AstFile, AstPackage, found_go, no_go, failed}

-- strings.Trim for a cutset of one byte
unfoldable pub trim_left : ℕ → Str → Str
trim_left q [] = []
trim_left q (c ∷ s) = let rest = trim_left q s in if c == q then rest else c ∷ s

unfoldable pub trim : ℕ → Str → Str
unfolding trim_left
trim q s = reverse (trim_left q (reverse (trim_left q s)))

-- An error that a function panics with, behind a text.
abbrev pub or_panic : {A : Type 0} → Result A → Result A
or_panic (ok a) = ok a
or_panic (err e) = panic (message "goen: " e)
or_panic (panic p) = panic p

abbrev or_missing : Str → Option AstPackage → Result AstPackage
or_missing pkg_path none = err pkg_path
or_missing pkg_path (some pkg) = ok pkg

abbrev or_unfound : Str → Str → Result Str
or_unfound pkg_name [] = panic (message "goen: unable to find package path in " pkg_name)
or_unfound pkg_name (c ∷ s) = ok (trim b'"' (c ∷ s))

module _ (go : GoTools) where
  -- `ParsePkgPath`; `bImport` answers as build.Import does (Cache).
  unfoldable pub parse_pkg_path : Str → Result AstPackage
  parse_pkg_path pkg_path = do
    bpkg ← go.build_import pkg_path
    apkgs ← go.parse_dir bpkg.dir
    or_missing pkg_path (lookup bpkg.name apkgs)

  -- `AssumePkgName`
  unfoldable pub assume_pkg_name : Str → Result Str
  assume_pkg_name pkg_path = do bpkg ← or_panic (go.build_import pkg_path); ok bpkg.name

  -- The name that an import has in its file.
  unfoldable pub import_name : ImportSpec → Result Str
  unfolding assume_pkg_name trim
  import_name spec = elim spec.name [ some n ↦ ok n | none ↦ assume_pkg_name (trim b'"' spec.path) ]

  -- The loop of `FindPkgPath`: the last import of that name wins.
  unfoldable pub find_import : Str → List ImportSpec → Str → Result Str
  unfolding import_name
  find_import pkg_name [] pkg_path = ok pkg_path
  find_import pkg_name (spec ∷ specs) pkg_path = do
    name ← import_name spec
    find_import pkg_name specs (if str_eq name pkg_name then spec.path else pkg_path)

  -- `FindPkgPath`
  unfoldable pub find_pkg_path : AstFile → Str → Result Str
  unfolding find_import trim
  find_pkg_path file pkg_name = find_import pkg_name file.imports [] >>= or_unfound pkg_name

  -- The loop of `AssumeImport` over the source directories.
  unfoldable pub relative_to_src : Str → List Str → Result Str
  relative_to_src absdir [] = ok []
  relative_to_src absdir (go_dir ∷ dirs) =
      let later = relative_to_src absdir dirs in
      if go.has_prefix absdir go_dir then or_panic (go.rel go_dir absdir) else later

  -- `AssumeImport`: the package's name and path.
  unfoldable pub assume_import : Str → Result (Str × Str)
  unfolding relative_to_src
  assume_import dir = do
    absdir ← or_panic (go.abs dir)
    elim (go.import_dir absdir) [
      | found_go bpkg ↦ ok (bpkg.name, bpkg.import_path)
      | failed e ↦ panic (message "goen: unable to import directory " e)
      | no_go ↦ (do pkg_path ← relative_to_src absdir go.src_dirs; ok (go.base dir, pkg_path))
    ]
