-- ===== src/Ivy.antt =====
-- The dependency resolver: revisions (`ivy_compare_revisions`) and patterns
-- (`ivy_pattern_substitute`) of src/ivy_parse.c, configurations, excludes, resolvers, the walk over
-- the dependencies and the reports of src/ivy_resolve.c.
pub mod Revision
pub mod Pattern
pub mod Confs
pub mod Resolvers
pub mod Walk
pub mod Resolve
pub mod Task
pub mod Retrieve
pub mod Report
