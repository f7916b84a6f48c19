-- ===== src/Tests/Loading/Joining.antt =====
-- The posts that a blog joins, with the keys of the schema.
use goen.Prelude.{false, [], ◌∷◌, List, filter, str_eq, codes, ◌≡◌, refl}
use goen.Go.Map.{lookup}
use goen.Meta.{MetaColumn, MetaTable}
use goen.Generated.Objects.{Object, allocate, entity_of}
use goen.Generated.Relations.{identity}
use goen.Generated.Kept.{children_at}
use goen.Generated.Keys.{schema_keys}
use goen.Generated.Joined.{field_text, children_at-filter}
use goen.Tests.Loading.{
  blog_id_field, in_memory, by_column, marshal, posts_of_blog, scanned, empty_heap,
}

abbrev blog_id_column : MetaColumn
blog_id_column = record {
  field = blog_id_field;
  omit_empty = false;
  part_of_primary_key = false;
  column_name = codes "blog_id";
}

abbrev post_table : MetaTable
post_table = record {
  typ = codes "Post";
  table_name = codes "posts";
  primary_key = [];
  reference_keys = (blog_id_column ∷ []) ∷ [];
  one_to_many_reference_keys = (blog_id_column ∷ []) ∷ [];
  many_to_one_reference_keys = [];
  columns = blog_id_column ∷ [];
}

abbrev blog : Object
blog = record {
  address = 0;
  entity = entity_of in_memory.zero_field (scanned (codes "Blog") (codes "1"));
}

abbrev posts : List Object
posts =
    (allocate in_memory.zero_field
      (scanned (codes "Post") (codes "2") ∷ (scanned (codes "Post") (codes "1") ∷ [])) empty_heap).0

children_at-filter_example :
    children_at
      (schema_keys marshal (λ e. post_table))
      (identity in_memory posts_of_blog blog)
      posts
    ≡ filter
        (λ y.
          str_eq (field_text marshal (codes "BlogID") y) (field_text marshal (codes "BlogID") blog))
        posts
unfolding allocate lookup str_eq
children_at-filter_example =
    children_at-filter in_memory posts_of_blog (λ e. post_table) post_table blog_id_column by_column
      by_column blog posts refl refl refl refl refl ((refl, (_, refl)), ((refl, (_, refl)), tt))
