-- ===== src/Tests/Loading.antt =====
-- A database with two blogs and two posts, for runs of the code that generator/templates/table.tgo
-- writes.
mod Objects
mod Relations
mod Queries
mod Joining
use goen.Prelude.{
  ℕ, suc, ◌-◌, false, true, Bool, List, [], ◌∷◌, Str, str_eq, codes, pos, Option, none, some,
  if◌then◌else◌,
}
use goen.Go.Result.{Result, ok, err}
use goen.Go.Value.{Value}
use goen.Squirrel.Select.{SelectBuilders}
use goen.Dialect.{Dialect}
use goen.RowKey.{MapRowKey, RowKey, found}
use goen.StructTag.{tag_column}
use goen.Structs.{basic_type, StructField}
use goen.Compiler.Effect.Memory.{memory_squirrel}
use goen.Meta.{MetaColumn, MetaTable, MetaSchema}
use goen.Meta.KeyString.{Marshal, key_string_of}
use goen.Generator.{Relation, RelationalColumn}
use goen.Scan.{Column, RowScanner, SqlRows, Scanned, struct_value, pointer_value}
use goen.DbContext.{Query}
use goen.ScopeCache.{ObjectKeys}
use goen.Generated.Objects.{Object, Heap, is_pointer_to}
use goen.Generated.Rows.{Runtime}

abbrev pub dialect : Dialect memory_squirrel
dialect = record { placeholder_format = 0; quote = λ s. s }

-- A SELECT is known by its table.
abbrev pub by_table : SelectBuilders memory_squirrel
by_table = record {
  SelectBuilder = Str;
  select = λ stmt cols. [];
  from = λ b table. table;
  columns = λ b cols. b;
  select_where = λ b cond. b;
  order_by = λ b exprs. b;
  limit = λ b n. b;
  offset = λ b n. b;
  select_sqlizer = λ b. memory_squirrel.eq [];
  comparison = λ c col v. memory_squirrel.eq [];
  expr = λ sql vs. memory_squirrel.eq [];
}

abbrev pub text : Str → Value
text s = Value.string (codes "string") s

abbrev pub blog_id_field : StructField
blog_id_field = record {
  name = codes "BlogID";
  typ = basic_type (codes "string");
  tag = (tag_column, codes "blog_id") ∷ [];
  anonymous = false;
}

abbrev pub columns : List Column
columns = record { name = codes "blog_id"; scan_type = none } ∷ []

abbrev pub row_of : Str → RowScanner
row_of s variables = ok (text s ∷ [])

abbrev pub rows_of : List RowScanner → SqlRows
rows_of rows = record { column_types = ok columns; rows = rows; final_error = none }

-- The blogs are 1 and 2, the posts are of 2 and 1, and no other table is there.
abbrev pub rows_in : Str → Result SqlRows
rows_in table =
    if str_eq table (codes "blogs")
    then ok (rows_of (row_of (codes "1") ∷ (row_of (codes "2") ∷ [])))
    else if str_eq table (codes "posts")
    then ok (rows_of (row_of (codes "2") ∷ (row_of (codes "1") ∷ [])))
    else err (codes "no such table")

-- The state is the number of rows that are open.
abbrev pub opened_by : Result SqlRows → ℕ → ℕ × Result SqlRows
opened_by (ok rows) n = (suc n, ok rows)
opened_by r n = (n, r)

abbrev pub marshal : Marshal
marshal = record {
  text = λ v. none;
  binary = λ v. none;
  sprint = λ v. elim v [ Value.string t s ↦ s | _ ↦ [] ];
}

abbrev pub key_in : Str → Object → Str
key_in table x = key_string_of marshal (record {
  table = table;
  key = (codes "blog_id", found (x.entity.field_by_name (codes "BlogID"))) ∷ [];
})

abbrev only_for : Str → Str → Object → List Str
only_for typ table x = if is_pointer_to typ x.entity.typ then key_in table x ∷ [] else []

abbrev pub keys : ObjectKeys Object
keys = record {
  primary = λ x. codes "p";
  references = λ x. [];
  one_to_many_references = only_for (codes "Post") (codes "posts");
  many_to_one_references = only_for (codes "Blog") (codes "blogs");
}

abbrev pub blog_table : MetaTable
blog_table = record {
  typ = codes "Blog";
  table_name = codes "blogs";
  primary_key = [];
  reference_keys = [];
  one_to_many_reference_keys = [];
  many_to_one_reference_keys = [];
  columns = [];
}

abbrev pub row_key_of : MapRowKey → RowKey memory_squirrel
row_key_of k = record {
  table_name = k.table;
  columns = [];
  values = [];
  sqlizer = memory_squirrel.eq k.key;
  to_sqlizer_with_dialect = λ d. memory_squirrel.eq k.key;
}

abbrev pub in_memory : Runtime memory_squirrel ℕ
in_memory = record {
  builders = by_table;
  select_to_sql = λ b. ok (b, []);
  query_context = λ query n. opened_by (rows_in query.0) n;
  close_rows = λ rows n. n - 1;
  snake_case = λ s. s;
  struct_fields = λ s. blog_id_field ∷ [];
  field_by_name = λ s name. some blog_id_field;
  zero_field = λ typ name. none;
  schema = record { typlist = []; built = some ((codes "Blog", blog_table) ∷ []) };
  keys = keys;
  marshal = marshal;
  as_row_key = row_key_of;
}

abbrev pub by_column : RelationalColumn
by_column = record {
  column_name = codes "blog_id";
  field_name = codes "BlogID";
  field_type = codes "string";
}

abbrev pub by_blog_id : List RelationalColumn
by_blog_id = by_column ∷ []

-- The fields `Posts` of a blog and `Blog` of a post.
abbrev pub posts_of_blog : Relation
posts_of_blog = record {
  table_name = codes "posts";
  field_name = codes "Posts";
  field_type = codes "Post";
  column_names = codes "blog_id" ∷ [];
  foreign_keys = by_blog_id;
  references = by_blog_id;
}

abbrev pub blog_of_post : Relation
blog_of_post = record {
  table_name = codes "blogs";
  field_name = codes "Blog";
  field_type = codes "Blog";
  column_names = codes "blog_id" ∷ [];
  foreign_keys = by_blog_id;
  references = by_blog_id;
}

abbrev pub scanned : Str → Str → Scanned
scanned typ id = pointer_value (struct_value typ ((codes "BlogID", text id) ∷ []))

abbrev pub empty_heap : Heap
empty_heap = record { next = 0; many = λ a g. []; one = λ a g. none }
