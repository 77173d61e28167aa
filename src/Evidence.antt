-- ===== src/Evidence.antt =====
-- src/polder_research/evidence/__init__.py: sources, segments, claims, entities, gaps, conflicts and
-- the edges between claims and sources.
pub mod Lookup
pub mod Records
pub mod Enrich
pub mod Persist
pub mod Sources
pub mod Links
pub mod Register
pub mod Integrity
pub mod Acquired
pub mod Tests
