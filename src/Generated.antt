-- ===== src/Generated.antt =====
-- The code that generator/templates/table.tgo writes for a table of generator/types.go, of which
-- example/goen.go is what it writes for the tables of the example. The methods that the structs of
-- the example have in common are one definition here, over the table or the relation that the
-- template is given. The Go contexts are left out.
pub mod Objects
pub mod Rows
pub mod Relations
pub mod Kept
pub mod Filled
pub mod Parents
pub mod Pointers
pub mod Missing
pub mod Included
pub mod Builder
pub mod Shared
pub mod Columns
pub mod Sets
pub mod Closing
pub mod Addresses
pub mod Queried
pub mod Keys
pub mod Joined
