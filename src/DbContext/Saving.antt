-- ===== src/DbContext/Saving.antt =====
-- What `SaveChanges` of db_ctx.go executes.
use goen.Prelude.{List, [], ◌∷◌, ◌++◌, Str, Option, none, some, ◌≡◌, refl, ap, ◌∙◌}
use goen.Go.Result.{Result, ok, err, panic}
use goen.Squirrel.{Squirrel}
use goen.Compiler.{CompilerOptions, default_round}
use goen.Compiler.Rounds.{map_result, default_compile-map_result}
use goen.DbContext.{
  DbContext, PatchCompiler, Query, compile_patch, compile_with, save_one, save_all, save_changes,
  save_compiled, and_then,
}

module _ {X W : Type 0} (to_sql : X → Result Query) (exec : Query → W → W × Result (Unit {0})) where
  behind_step :
      (r : W × Result (Unit {0})) (f g h : W → W × Result (Unit {0}))
      → ((w : W) → f w ≡ and_then (g w) h)
      → and_then r f ≡ and_then (and_then r g) h
  behind_step (w, ok x) f g h e = e w
  behind_step (w, err x) f g h e = refl
  behind_step (w, panic x) f g h e = refl

  save_all-append :
      (ss ts : List X) (w : W)
      → save_all to_sql exec (ss ++ ts) w
        ≡ and_then (save_all to_sql exec ss w) λ w'. save_all to_sql exec ts w'
  unfolding save_all
  save_all-append [] ts w = refl
  save_all-append (s ∷ ss) ts w =
      behind_step (save_one to_sql exec s w) _ _ _ (save_all-append ss ts)

  -- The statements in front of the first one that fails are executed, in order; the error of that
  -- one is returned, and none behind it is executed.
  pub save_all-err :
      (ss ts : List X) (s : X) (w w' w'' : W) (e : Str)
      → save_all to_sql exec ss w ≡ (w', ok tt)
      → save_one to_sql exec s w' ≡ (w'', err e)
      → save_all to_sql exec (ss ++ s ∷ ts) w ≡ (w'', err e)
  unfolding save_all
  save_all-err ss ts s w w' w'' e h k =
      save_all-append ss (s ∷ ts) w
      ∙ ap (λ r. and_then r λ v. save_all to_sql exec (s ∷ ts) v) h
      ∙ ap (λ r. and_then r λ v. save_all to_sql exec ts v) k

-- The compiler makes nothing of no patches, as the default one does.
abbrev pub IsQuiet : {q : Squirrel} → Option (PatchCompiler q) → Type 0
IsQuiet {q} none = Unit
IsQuiet {q} (some compile) = (opts : CompilerOptions q) → opts.patches ≡ [] → compile opts ≡ ok []

compile_with-quiet :
    {q : Squirrel} (c : Option (PatchCompiler q)) (opts : CompilerOptions q)
    → IsQuiet c
    → opts.patches ≡ []
    → compile_with c opts ≡ ok []
unfolding map_result
compile_with-quiet none opts h e =
    default_compile-map_result opts ∙ ap (map_result (default_round opts)) e
compile_with-quiet (some compile) opts h e = h opts e

-- Saving a second time executes nothing, whether the first time succeeded, failed or panicked: the
-- patches are no longer in the buffer. The compiler must make no statement of no patches.
pub save_changes-save_changes :
    {q : Squirrel} {W : Type 0} (to_sql : q.Sqlizer → Result Query)
    (exec : Query → W → W × Result (Unit {0}))
    → (dbc : DbContext q) (w w' : W) → IsQuiet dbc.compiler
    → (save_changes to_sql exec (save_changes to_sql exec dbc w).0 w').1 ≡ (w', ok tt)
unfolding save_changes compile_patch save_compiled save_all
save_changes-save_changes to_sql exec dbc w w' h =
    ap (λ r. save_compiled to_sql exec r w') (compile_with-quiet dbc.compiler _ h refl)
