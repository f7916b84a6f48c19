-- ===== src/Tests/Loading/Relations.antt =====
-- Runs of the loaders of relations, and of lists of loaders.
use goen.Prelude.{ℕ, List, [], ◌∷◌, ◌++◌, Str, str_eq, codes, none, ◌≡◌, refl, arith}
use goen.Go.Result.{ok}
use goen.Go.Map.{Map, lookup, insert}
use goen.StructTag.{first_lookup, first_not_empty, column_spec_name, string_at, split}
use goen.Structs.{
  is_column_field, is_ignored_field, is_foreign_key_field, column_name, eq_column_name,
  field_by_column,
}
use goen.Scan.{scan, scan_loop, scan_row, scan_row_as_struct, fields_of_columns, addressed}
use goen.Meta.KeyString.{key_string_of, value_string}
use goen.ScopeCache.{Cached, slice, one_to_many, suffix}
use goen.ScopeCache.Laws.{list_of}
use goen.ScopeCache.View.{View, Represents, put, no_view, no_view-Represents, Represents-insert}
use goen.Generator.{Relation}
use goen.Generated.Objects.{Object, Heap, Records, allocate, entity_of}
use goen.Generated.Rows.{Session, select_rows}
use goen.Generated.Relations.{identity, related_row_key, related_select, include_many, include_one}
use goen.Generated.Kept.{add_all_to_view}
use goen.Generated.Filled.{gains}
use goen.Generated.Parents.{chosen_parent}
use goen.Generated.Included.{
  with_children, with_parents, include_many-cached, include_many-children, include_one-parents,
}
use goen.Tests.Deciding.{lacks-Lacks}
use goen.Tests.Loading.Objects.{blog-HasKeys, post-HasKeys}
use goen.Tests.Loading.{dialect, in_memory, keys, posts_of_blog, blog_of_post, scanned, empty_heap}

abbrev blog : Object
blog = record {
  address = 0;
  entity = entity_of in_memory.zero_field (scanned (codes "Blog") (codes "1"));
}

abbrev post : Object
post = record {
  address = 0;
  entity = entity_of in_memory.zero_field (scanned (codes "Post") (codes "1"));
}

abbrev one_blog : Records
one_blog = record { points_to = codes "Blog"; objects = blog ∷ [] }

abbrev one_post : Records
one_post = record { points_to = codes "Post"; objects = post ∷ [] }

-- The one struct that was made has the address 0.
abbrev start : Session ℕ
start = record { cache = []; heap = record empty_heap { next = 1 }; world = 0 }

-- The posts of the SELECT, and the blogs.
abbrev posts : List Object
posts =
    (allocate in_memory.zero_field
      (scanned (codes "Post") (codes "2") ∷ (scanned (codes "Post") (codes "1") ∷ [])) start.heap).0

abbrev blogs : List Object
blogs =
    (allocate in_memory.zero_field
      (scanned (codes "Blog") (codes "1") ∷ (scanned (codes "Blog") (codes "2") ∷ [])) start.heap).0

include_many-children_example :
    (m : Map (Cached Object)) × (h : Heap) × (include_many in_memory posts_of_blog
        (codes "Blog")
        dialect
        one_blog
        ([], start)
      ≡ (
        (
          record { points_to = codes "Post"; objects = posts } ∷ [],
          record { cache = m; heap = h; world = 0 },
        ),
        ok tt,
      ))
    × Represents m (add_all_to_view keys posts no_view)
    × (h.many 0 (codes "Posts")
        ≡ gains in_memory posts_of_blog (with_children keys posts no_view) (blog ∷ []) 0)
unfolding select_rows scan scan_loop scan_row scan_row_as_struct fields_of_columns addressed
    field_by_column is_column_field is_ignored_field is_foreign_key_field eq_column_name column_name
    first_lookup first_not_empty column_spec_name string_at split str_eq lookup allocate
    related_row_key related_select identity key_string_of value_string insert
include_many-children_example =
    include_many-children in_memory posts_of_blog (codes "Blog") dialect one_blog [] start no_view
      (related_row_key posts_of_blog blog) [] 0
      (scanned (codes "Post") (codes "2") ∷ (scanned (codes "Post") (codes "1") ∷ [])) refl
      (lacks-Lacks b'#' (codes "posts;blog_id=1") refl, tt) (tt, tt) (λ k. refl) no_view-Represents
      refl refl (post-HasKeys 1 (codes "2") refl, (post-HasKeys 2 (codes "1") refl, tt)) 0
      (codes "Posts") (omega arith)

include_one-parents_example :
    (m : Map (Cached Object)) × (h : Heap) × (include_one in_memory blog_of_post
        (codes "Post")
        dialect
        one_post
        ([], start)
      ≡ (
        (
          record { points_to = codes "Blog"; objects = blogs } ∷ [],
          record { cache = m; heap = h; world = 0 },
        ),
        ok tt,
      ))
    × Represents m (add_all_to_view keys blogs no_view)
    × (h.one 0 (codes "Blog")
        ≡ chosen_parent in_memory blog_of_post (with_parents keys blogs no_view) (post ∷ []) 0 none)
unfolding select_rows scan scan_loop scan_row scan_row_as_struct fields_of_columns addressed
    field_by_column is_column_field is_ignored_field is_foreign_key_field eq_column_name column_name
    first_lookup first_not_empty column_spec_name string_at split str_eq lookup allocate
    related_row_key related_select identity key_string_of value_string insert
include_one-parents_example =
    include_one-parents in_memory blog_of_post (codes "Post") dialect one_post [] start no_view
      (related_row_key blog_of_post post) [] 0
      (scanned (codes "Blog") (codes "1") ∷ (scanned (codes "Blog") (codes "2") ∷ [])) refl
      (lacks-Lacks b'#' (codes "blogs;blog_id=1") refl, tt) (λ k. refl) no_view-Represents refl refl
      (blog-HasKeys 1 (codes "1") refl, (blog-HasKeys 2 (codes "2") refl, tt)) 0 (codes "Blog")
      (omega arith)

-- A post of the blog that a query of posts gave, and the cache that holds it.
abbrev key : Str
key = codes "posts;blog_id=1"

abbrev one_child : View Object
one_child = put one_to_many key (slice (post ∷ [])) no_view

abbrev with_child : Session ℕ
with_child = record start { cache = insert (key ++ suffix one_to_many) (slice (post ∷ [])) [] }

include_many-cached_example :
    (h : Heap) × (include_many in_memory posts_of_blog
        (codes "Blog")
        dialect
        one_blog
        ([], with_child)
      ≡ (([], record with_child { heap = h }), ok tt))
    × (h.many 0 (codes "Posts")
        ≡ gains in_memory posts_of_blog (λ k. list_of (one_child one_to_many k)) (blog ∷ []) 0)
unfolding str_eq lookup identity related_row_key key_string_of value_string insert
include_many-cached_example =
    include_many-cached in_memory posts_of_blog (codes "Blog") dialect one_blog [] with_child
      one_child refl (lacks-Lacks b'#' key refl, tt) ((refl, tt), tt)
      (Represents-insert [] no_view one_to_many key (slice (post ∷ [])) tt
        (lacks-Lacks b'#' key refl) no_view-Represents)
      refl 0 (codes "Posts")

-- A table that is not there.
abbrev no_table : Relation
no_table = record posts_of_blog { table_name = codes "none" }
