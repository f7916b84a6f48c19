-- ===== src/AstTypes/Strings.antt =====
-- `String` and `StringWithPkgName` of internal/structs_a.go.
use goen.Prelude.{[], ◌∷◌, ◌++◌, Str, codes}
use goen.Asts.{Expr, ident, star, slice_type, array_type, selector, struct_expr, other}

-- `pkgName`, unless there is another one.
abbrev pub alternative : Str → Str → Str
alternative [] pkg_name = pkg_name
alternative (c ∷ s) pkg_name = c ∷ s

-- `StringWithPkgName`: the length of an array is visited before its elements.
unfoldable pub string_with_pkg_name : Str → Expr → Str
string_with_pkg_name alt (ident n) = n
string_with_pkg_name alt (star e) = codes "*" ++ string_with_pkg_name alt e
string_with_pkg_name alt (slice_type e) = codes "[]" ++ string_with_pkg_name alt e
string_with_pkg_name alt (array_type l e) =
    codes "[]" ++ (string_with_pkg_name alt l ++ string_with_pkg_name alt e)
string_with_pkg_name alt (selector p t) = alternative alt p ++ codes "." ++ t
string_with_pkg_name alt (struct_expr fs) = []
string_with_pkg_name alt (other k es) = []

-- `String`
unfoldable pub type_string : Expr → Str
unfolding string_with_pkg_name
type_string e = string_with_pkg_name [] e
