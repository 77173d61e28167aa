-- ===== src/Method.antt =====
-- src/polder_research/research_methods/__init__.py: systematic reviews under a frozen protocol.
pub mod Records
pub mod Final
pub mod Reading
pub mod Screening
pub mod Protocol
pub mod Collect
pub mod Extraction
pub mod Flow
pub mod Complete
mod Samples
mod Tests
mod RunTests
