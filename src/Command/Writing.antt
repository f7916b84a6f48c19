-- ===== src/Command/Writing.antt =====
-- What a run of the command leaves behind, and which files it parses.
use mathlib.Core.Option.{some-injective}
use goen.Prelude.{
  Bool, true, false, List, [], ◌∷◌, Str, str_eq, ℕ, Option, none, some, length, ◌≡◌, ◌≤◌, ◌⊎◌, inl,
  inr, refl, ap, All, arith, ◌↔◌, ltb, if◌then◌else◌,
}
use goen.Go.Result.{Result, ok, err, panic}
use goen.Structs.Run.{Run, fail, IfDone, IfDone-after, IfDone-if, IfDone-done}
use goen.Asts.{GoTools}
use goen.Asts.Lookup.{assume_import}
use goen.Generator.{Package}
use goen.Command.{
  Flags, Parsed, with_flags, exited, Write, all_written, cut_at, first_bytes, cut_off, or_cut, Host,
  Outcome, stub, overwrite, make_filter, or_matched, apply_filters, write_out, after_write,
  after_execute, after_parse, generate, is_different_dir, named_package, run_on_file, or_exit,
  run_to_file, run_to, run_with, run, source_dir, more_than_one,
}

-- A text that is at least as long as what the file holds replaces it.
pub overwrite-all : (src old : Str) → length old ≤ length src → overwrite src old ≡ src
unfolding overwrite
overwrite-all [] [] h = refl
overwrite-all [] (d ∷ old) h = ground arith
overwrite-all (c ∷ src) [] h = refl
overwrite-all (c ∷ src) (d ∷ old) h = ap (λ s. c ∷ s) (overwrite-all src old (omega arith))

-- The file is as long as the longer of the two.
pub length-overwrite :
    (src old : Str)
    → length (overwrite src old)
      ≡ (if ltb (length src) (length old) then length old else length src)
unfolding overwrite
length-overwrite [] [] = ground arith
length-overwrite [] (d ∷ old) = ground arith
length-overwrite (c ∷ src) [] = ground arith
length-overwrite (c ∷ src) (d ∷ old) = ground (arith, length-overwrite src old)

-- What a run may leave: with the status 0 a whole text; with the status 1 no file, some first bytes
-- of the stub, or first bytes of a text over the stub or on the standard output; with the status 128
-- no file or the stub.
pub data IsLeft : Outcome → Type 0 where
  wrote :
      (src : Str) → IsLeft (record { status = 0; stdout = []; file = some (overwrite src stub) })
  printed : (src : Str) → IsLeft (record { status = 0; stdout = src; file = none })
  failed_early : IsLeft (record { status = 1; stdout = []; file = none })
  failed_on_stub :
      (n : ℕ) → IsLeft (record { status = 1; stdout = []; file = some (first_bytes n stub) })
  cut_in_file :
      (n : ℕ) (src : Str)
      → IsLeft
          (record { status = 1; stdout = []; file = some (overwrite (first_bytes n src) stub) })
  cut_on_stdout :
      (n : ℕ) (src : Str) → IsLeft (record { status = 1; stdout = first_bytes n src; file = none })
  refused :
      (file : Option Str)
      → ◌⊎◌ (file ≡ none) (file ≡ some stub)
      → IsLeft (record { status = 128; stdout = []; file = file })

-- Whatever package flag ends the process with, there is no file.
abbrev pub LeavesBehind : Parsed → Outcome → Type 0
LeavesBehind (with_flags flags) outcome = IsLeft outcome
LeavesBehind (exited status) outcome =
    outcome ≡ record { status = status; stdout = []; file = none }

-- A file that the last steps may be given.
abbrev IsOpen : Option Str → Type 0
IsOpen file = ◌⊎◌ (file ≡ none) (file ≡ some stub)

failed :
    (file : Option Str) → IsOpen file → IsLeft (record { status = 1; stdout = []; file = file })
failed none h = failed_early
failed (some old) (inl e) = ground arith
failed (some old) (inr e) = rw (some-injective old stub e) (failed_on_stub (length stub))

cut_off-IsLeft :
    (n : ℕ) (file : Option Str) (src : Str)
    → IsOpen file
    → IsLeft (cut_off file (first_bytes n src))
cut_off-IsLeft n none src h = cut_on_stdout n src
cut_off-IsLeft n (some old) src (inl e) = ground arith
cut_off-IsLeft n (some old) src (inr e) = rw (some-injective old stub e) (cut_in_file n src)

after_write-IsLeft :
    (r : Write) (file : Option Str) (src : Str)
    → IsOpen file
    → IfDone IsLeft (after_write r file src)
after_write-IsLeft all_written none src h = printed src
after_write-IsLeft all_written (some old) src (inl e) = ground arith
after_write-IsLeft all_written (some old) src (inr e) = rw (some-injective old stub e) (wrote src)
after_write-IsLeft (cut_at n) file src h = cut_off-IsLeft n file src h

or_matched_iff :
    (r later : Result Bool) → (or_matched r later ≡ ok true) ↔ ((r ≡ ok false) × (later ≡ ok true))
or_matched_iff (ok true) later = ground arith
or_matched_iff (ok false) later = ground arith
or_matched_iff (err e) later = ground arith
or_matched_iff (panic p) later = ground arith

or_exit-IsLeft :
    (r : Result (Unit {0})) (file : Option Str) (next : Run Outcome)
    → IsOpen file
    → IfDone IsLeft next
    → IfDone IsLeft (or_exit r file next)
or_exit-IsLeft (ok x) file next h k = k
or_exit-IsLeft (err e) file next h k = failed file h
or_exit-IsLeft (panic p) file next h k = tt

or_cut-IsLeft :
    (r : Write) (next : Run Outcome) → IfDone IsLeft next → IfDone IsLeft (or_cut r next)
or_cut-IsLeft all_written next k = k
or_cut-IsLeft (cut_at n) next k = failed_on_stub n

module _ (host : Host) where
  -- Exactly the files that no pattern matches are parsed.
  pub make_filter_iff :
      (globs : List Str) (name : Str)
      → (make_filter host globs name ≡ ok true) ↔ All (λ pat. host.match pat name ≡ ok false) globs
  unfolding make_filter
  make_filter_iff [] name = (λ h. tt, λ h. refl)
  make_filter_iff (pat ∷ globs) name =
      let iff = or_matched_iff (host.match pat name) (make_filter host globs name) in
      let later = make_filter_iff globs name in
      (λ h. ((iff.0 h).0, later.0 ((iff.0 h).1)), λ h. iff.1 (h.0, later.1 (h.1)))

module _ (go : GoTools) (host : Host) (snake_case : Str → Str) (fuel : ℕ) where
  after_execute-IsLeft :
      (flags : Flags) (r : Result Str) (file : Option Str)
      → IsOpen file
      → IfDone IsLeft (after_execute go host snake_case fuel flags file r)
  unfolding write_out
  after_execute-IsLeft flags (ok buf) file h =
      IfDone-after IsLeft (apply_filters host flags buf) _
        (λ src e. after_write-IsLeft (host.write src) file src h)
  after_execute-IsLeft flags (err e) file h = failed file h
  after_execute-IsLeft flags (panic p) file h = tt

  after_parse-IsLeft :
      (flags : Flags) (r : Run Package) (file : Option Str)
      → IsOpen file
      → IfDone IsLeft (after_parse go host snake_case fuel flags file r)
  after_parse-IsLeft flags none file h = tt
  after_parse-IsLeft flags (some (ok data_of)) file h =
      after_execute-IsLeft flags (host.execute data_of) file h
  after_parse-IsLeft flags (some (err e)) file h = failed file h
  after_parse-IsLeft flags (some (panic p)) file h = tt

  generate-IsLeft :
      (flags : Flags) (globs : List Str) (src_dir name : Str) (file : Option Str)
      → IsOpen file
      → IfDone IsLeft (generate go host snake_case fuel flags globs src_dir name file)
  unfolding generate
  generate-IsLeft flags globs src_dir name file h = after_parse-IsLeft flags _ file h

  named_package-IsLeft :
      (flags : Flags) (globs : List Str) (src_dir pkg_name name : Str)
      → IfDone IsLeft (named_package go host snake_case fuel flags globs src_dir pkg_name name)
  named_package-IsLeft flags globs src_dir pkg_name [] =
      generate-IsLeft flags globs src_dir pkg_name (some stub) (inr refl)
  named_package-IsLeft flags globs src_dir pkg_name (c ∷ name) =
      IfDone-if IsLeft (str_eq pkg_name (c ∷ name)) _ _ (refused (some stub) (inr refl))
        (generate-IsLeft flags globs src_dir pkg_name (some stub) (inr refl))

  run_on_file-IsLeft :
      (flags : Flags) (src_dir : Str)
      → IfDone IsLeft (run_on_file go host snake_case fuel flags src_dir)
  unfolding run_on_file
  run_on_file-IsLeft flags src_dir =
      IfDone-after IsLeft
        (is_different_dir go host snake_case fuel src_dir (host.dir flags.out_file)) _
        (λ different e.
          IfDone-if IsLeft different _ _
            (generate-IsLeft flags _ src_dir flags.out_pkg_name (some stub) (inr refl))
            (IfDone-after IsLeft (fail (assume_import go (host.dir flags.out_file))) _
              (λ assumed e'. named_package-IsLeft flags _ src_dir (assumed.0) flags.out_pkg_name)))

  run_to_file-IsLeft :
      (flags : Flags) (src_dir : Str)
      → IfDone IsLeft (run_to_file go host snake_case fuel flags src_dir)
  unfolding run_to_file
  run_to_file-IsLeft flags src_dir =
      or_exit-IsLeft (host.mkdir_all (host.dir flags.out_file)) none _ (inl refl) (
        or_exit-IsLeft (host.create flags.out_file) none _ (inl refl) (
          or_cut-IsLeft host.write_stub _
            (or_exit-IsLeft host.seek (some stub) _ (inr refl) (run_on_file-IsLeft flags src_dir))))

  run_to-IsLeft :
      (to_stdout : Bool) (flags : Flags)
      → IfDone IsLeft (run_to go host snake_case fuel to_stdout flags)
  run_to-IsLeft true flags =
      generate-IsLeft flags _ (source_dir flags.args) flags.out_pkg_name none (inl refl)
  run_to-IsLeft false flags = run_to_file-IsLeft flags (source_dir flags.args)

  run_with-IsLeft :
      (version many : Bool) (flags : Flags)
      → IfDone IsLeft (run_with go host snake_case fuel version many flags)
  run_with-IsLeft true many flags = printed host.version_line
  run_with-IsLeft false true flags = refused none (inl refl)
  run_with-IsLeft false false flags = run_to-IsLeft _ flags

  -- If a run of the command ends without a panic, then either package flag has ended it on the
  -- arguments, with nothing printed and no output file, or it has the status 0 and wrote a whole text
  -- over the stub or printed one, or the status 128, printed nothing and left no output file or the
  -- stub, or the status 1 and left no more than the first bytes of the stub, or of a text over the
  -- stub or on the standard output.
  pub run-IsLeft :
      (flags : Parsed) (outcome : Outcome)
      → run go host snake_case fuel flags ≡ some (ok outcome)
      → LeavesBehind flags outcome
  unfolding run
  run-IsLeft (with_flags f) outcome e =
      IfDone-done IsLeft (run go host snake_case fuel (with_flags f)) outcome
        (run_with-IsLeft f.show_version (more_than_one f.args) f) e
  run-IsLeft (exited status) outcome e =
      IfDone-done (LeavesBehind (exited status)) (run go host snake_case fuel (exited status))
        outcome refl e
