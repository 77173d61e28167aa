-- ===== src/Classification.antt =====
-- src/polder_research/classification/__init__.py: proposals of categories, tags and dimensions.
pub mod Records
pub mod Provider
pub mod Answers
pub mod Attempts
pub mod Hosted
pub mod Review
pub mod Tests
