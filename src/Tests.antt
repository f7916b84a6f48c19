-- ===== src/Tests.antt =====
-- Concrete runs: the theorems applied to inputs at which their conditions hold. The children are
-- named for what they run.
mod Deciding
mod Statements
mod Keys
mod Schemas
mod Scanning
mod Scopes
mod Packages
mod Loading
mod Lists
