-- ===== src/Examples.antt =====
-- The theorems at concrete inputs: small tables, texts, patterns, projects and revisions.
mod Tables
mod Texts
mod Builds
mod Tasks
mod Formats
mod Resolution
mod Inputs
mod Retrieval
