-- ===== src/Command.antt =====
-- cmd/goen/main.go and cmd/goen/filter.go: the command, from the flags to the file that it leaves.
-- The file system, the templates, go/format and x/tools/imports are the parameter `Host`, and what
-- package flag makes of the arguments is given to `run`;
-- what goes to the log and the standard error is left out, and so is the check of the version, which
-- only writes there.
pub mod Writing
use goen.Prelude.{
  Bool, true, false, ◌&&◌, not, List, [], ◌∷◌, ◌++◌, Str, codes, str_eq, if◌then◌else◌, Option,
  none, some, ℕ, zero, suc,
}
use goen.Go.Result.{Result, ok, err, panic, message, error_value, Panic}
use goen.Go.Map.{Map}
use goen.Structs.Run.{Run, pure, fail, ◌>>=◌}
use goen.Asts.{GoTools, AstPackage}
use goen.Asts.Lookup.{assume_import}
use goen.Generator.{Package}
use goen.Generator.Packages.{parse_dir}

-- The variables of `run` that the flags set, and the arguments after the flags.
pub record Flags : Type 0 where
  pub show_version : Bool
  pub out_pkg_name : Str
  pub out_file : Str
  pub exclude_globs : List Str
  pub no_go_fmt : Bool
  pub no_go_imports : Bool
  pub args : List Str

-- What package flag makes of the arguments. The set of flags is made with flag.ExitOnError: on
-- arguments that it refuses, and on a call for help, the package itself ends the process, with a
-- status of its own.
pub data Parsed : Type 0 where
  with_flags : Flags → Parsed
  exited : ℕ → Parsed

-- The first `n` bytes.
abbrev pub first_bytes : ℕ → Str → Str
first_bytes zero src = []
first_bytes (suc n) [] = []
first_bytes (suc n) (c ∷ src) = c ∷ first_bytes n src

-- How a write to the file or the standard output ends: all is written, or an error comes behind
-- that many bytes.
pub data Write : Type 0 where
  all_written : Write
  cut_at : ℕ → Write

pub record Host : Type 0 where
  -- `fmt.Sprintf` of the version line, filepath.Dir, Base and Match
  pub version_line : Str
  pub dir : Str → Str
  pub base : Str → Str
  pub match : Str → Str → Result Bool
  -- os.MkdirAll, os.Create, the seek, and the two writes: how many bytes each has written if it
  -- fails
  pub mkdir_all : Str → Result (Unit {0})
  pub create : Str → Result (Unit {0})
  pub write_stub : Write
  pub seek : Result (Unit {0})
  pub write : Str → Write
  -- parser.ParseDir with a filter of the files' names
  pub parse_filtered : (Str → Result Bool) → Str → Result (Map AstPackage)
  -- the templates, format.Source and imports.Process
  pub execute : Package → Result Str
  pub format_source : Str → Result Str
  pub process_imports : Str → Str → Result Str

-- What is left: the exit status, the standard output, and the output file if it was created.
pub record Outcome : Type 0 where
  pub status : ℕ
  pub stdout : Str
  pub file : Option Str

abbrev pub stub : Str
stub = codes "// +build ignore" ++ (10 ∷ 10 ∷ []) ++ codes "package _"

-- A file's content after a write at its start.
unfoldable pub overwrite : Str → Str → Str
overwrite [] old = old
overwrite (c ∷ src) [] = c ∷ src
overwrite (c ∷ src) (d ∷ old) = c ∷ overwrite src old

abbrev pub exits : ℕ → Option Str → Run Outcome
exits status file = pure (record { status = status; stdout = []; file = file })

-- `srcDir`
unfoldable pub source_dir : List Str → Str
source_dir [] = codes "."
source_dir ([] ∷ args) = codes "."
source_dir ((c ∷ s) ∷ args) = c ∷ s

abbrev pub is_error : {A : Type 0} → Result A → Bool
is_error (err e) = true
is_error _ = false

-- One round of the loop over the filters: an error leaves the source as it was.
abbrev pub filtered : Bool → Result Str → Str → Run Str
filtered true r src = pure src
filtered false (ok res) src = pure res
filtered false (err e) src = pure src
filtered false (panic p) src = fail (panic p)

abbrev pub matched : Bool → Result Bool → Result Bool
matched true later = ok false
matched false later = later

abbrev pub or_matched : Result Bool → Result Bool → Result Bool
or_matched (ok b) later = matched b later
or_matched (err e) later = panic (message "glob match error for pattern " e)
or_matched (panic p) later = panic p

abbrev pub on_stdout : Str → Outcome
on_stdout src = record { status = 0; stdout = src; file = none }

abbrev pub written : Option Str → Str → Outcome
written none src = on_stdout src
written (some old) src = record { status = 0; stdout = []; file = some (overwrite src old) }

-- A write that failed has written the text's first bytes.
abbrev pub cut_off : Option Str → Str → Outcome
cut_off none part = record { status = 1; stdout = part; file = none }
cut_off (some old) part = record { status = 1; stdout = []; file = some (overwrite part old) }

abbrev pub after_write : Write → Option Str → Str → Run Outcome
after_write all_written file src = pure (written file src)
after_write (cut_at n) file src = pure (cut_off file (first_bytes n src))

abbrev pub or_panics : {A : Type 0} → Result A → Result A
or_panics (ok a) = ok a
or_panics (err e) = panic (error_value e)
or_panics (panic p) = panic p

-- The steps that may fail before that, each with the file that it leaves.
abbrev pub or_exit : Result (Unit {0}) → Option Str → Run Outcome → Run Outcome
or_exit (ok x) file next = next
or_exit (err e) file next = exits 1 file
or_exit (panic p) file next = fail (panic p)

-- The write of the stub.
abbrev pub or_cut : Write → Run Outcome → Run Outcome
or_cut all_written next = next
or_cut (cut_at n) next = exits 1 (some (first_bytes n stub))

abbrev pub more_than_one : List Str → Bool
more_than_one (a ∷ b ∷ args) = true
more_than_one _ = false

module _ (host : Host) where
  -- `MakeFilter`: whether the file is parsed.
  unfoldable pub make_filter : List Str → Str → Result Bool
  make_filter [] name = ok true
  make_filter (pat ∷ pats) name = or_matched (host.match pat name) (make_filter pats name)

  -- The goimports and gofmt filters, as far as the flags ask for them.
  unfoldable pub apply_filters : Flags → Str → Run Str
  apply_filters flags src = do
    res ← filtered flags.no_go_fmt (host.format_source src) src
    filtered flags.no_go_imports (host.process_imports flags.out_file res) res

  -- The last write, to the standard output or to the file.
  unfoldable pub write_out : Option Str → Str → Run Outcome
  unfolding overwrite
  write_out file src = after_write (host.write src) file src

module _ (go : GoTools) (host : Host) (snake_case : Str → Str) (fuel : ℕ) where
  abbrev pub after_execute : Flags → Option Str → Result Str → Run Outcome
  after_execute flags file (ok buf) = do src ← apply_filters host flags buf; write_out host file src
  after_execute flags file (err e) = exits 1 file
  after_execute flags file (panic p) = fail (panic p)

  abbrev pub after_parse : Flags → Option Str → Run Package → Run Outcome
  after_parse flags file none = none
  after_parse flags file (some (ok pkg_data)) = after_execute flags file (host.execute pkg_data)
  after_parse flags file (some (err e)) = exits 1 file
  after_parse flags file (some (panic p)) = fail (panic p)

  -- `ParseDir`, `Generate`, the filters and the write.
  unfoldable pub generate : Flags → List Str → Str → Str → Option Str → Run Outcome
  unfolding make_filter apply_filters write_out
  generate flags globs src_dir out_pkg_name file = after_parse flags file (
      parse_dir go snake_case fuel (host.parse_filtered (make_filter host globs) src_dir) src_dir
        out_pkg_name)

  -- `isDifferentDir`
  unfoldable pub is_different_dir : Str → Str → Run Bool
  is_different_dir a b = do
    apath ← fail (or_panics (go.abs a))
    bpath ← fail (or_panics (go.abs b))
    pure (not (str_eq apath bpath))

  -- The name of the output package must be that of the output directory.
  abbrev pub named_package : Flags → List Str → Str → Str → Str → Run Outcome
  named_package flags globs src_dir pkg_name [] = generate flags globs src_dir pkg_name (some stub)
  named_package flags globs src_dir pkg_name (c ∷ name) =
      let same = generate flags globs src_dir pkg_name (some stub) in
      elim (str_eq pkg_name (c ∷ name)) [ true ↦ same | false ↦ exits 128 (some stub) ]

  -- `run` after the file was created and holds the stub.
  unfoldable pub run_on_file : Flags → Str → Run Outcome
  unfolding is_different_dir
  run_on_file flags src_dir = do
    let globs = flags.exclude_globs ++ (host.base flags.out_file ∷ [])
    different ← is_different_dir src_dir (host.dir flags.out_file)
    elim different [
      | false ↦ generate flags globs src_dir flags.out_pkg_name (some stub)
      | true ↦ (do
        assumed ← fail (assume_import go (host.dir flags.out_file))
        named_package flags globs src_dir (assumed.0) flags.out_pkg_name)
    ]

  unfoldable pub run_to_file : Flags → Str → Run Outcome
  unfolding run_on_file
  run_to_file flags src_dir = or_exit (host.mkdir_all (host.dir flags.out_file)) none (
      or_exit (host.create flags.out_file) none
        (or_cut host.write_stub (or_exit host.seek (some stub) (run_on_file flags src_dir))))

  abbrev pub run_to : Bool → Flags → Run Outcome
  run_to true flags =
      generate flags flags.exclude_globs (source_dir flags.args) flags.out_pkg_name none
  run_to false flags = run_to_file flags (source_dir flags.args)

  abbrev pub run_with : Bool → Bool → Flags → Run Outcome
  run_with true many flags = pure (on_stdout host.version_line)
  run_with false true flags = exits 128 none
  run_with false false flags = run_to (str_eq flags.out_file (codes "-")) flags

  -- `run`. The branch behind `flg.Parse` that returns 128 is never taken: with flag.ExitOnError
  -- `Parse` returns no error.
  unfoldable pub run : Parsed → Run Outcome
  unfolding run_to_file source_dir
  run (with_flags flags) = run_with flags.show_version (more_than_one flags.args) flags
  run (exited status) = exits status none
