-- ===== src/Tests/Loading/Objects.antt =====
-- The keys of the blogs and posts.
use goen.Prelude.{◌++◌, ℕ, true, Str, str_eq, codes, ◌≡◌, refl}
use goen.Go.Map.{lookup}
use goen.Meta.KeyString.{key_string_of, value_string}
use goen.ScopeCache.Laws.{HasKeys}
use goen.Generated.Objects.{entity_of}
use goen.Tests.Deciding.{lacks, lacks-Lacks}
use goen.Tests.Loading.{in_memory, keys, scanned}

pub blog-HasKeys :
    (a : ℕ) (s : Str)
    → lacks b'#' s ≡ true
    → HasKeys keys
        (record { address = a; entity = entity_of in_memory.zero_field (scanned (codes "Blog") s) })
unfolding str_eq lookup key_string_of value_string
blog-HasKeys a s h = record {
  primary = lacks-Lacks b'#' (codes "p") refl;
  references = tt;
  one_to_many = tt;
  many_to_one = (lacks-Lacks b'#' (codes "blogs;blog_id=" ++ s) h, tt);
}

pub post-HasKeys :
    (a : ℕ) (s : Str)
    → lacks b'#' s ≡ true
    → HasKeys keys
        (record { address = a; entity = entity_of in_memory.zero_field (scanned (codes "Post") s) })
unfolding str_eq lookup key_string_of value_string
post-HasKeys a s h = record {
  primary = lacks-Lacks b'#' (codes "p") refl;
  references = tt;
  one_to_many = (lacks-Lacks b'#' (codes "posts;blog_id=" ++ s) h, tt);
  many_to_one = tt;
}
