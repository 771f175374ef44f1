-- ===== src/Citations.antt =====
-- The citations of an answer: backend/app/services/citation_validator.py.
pub mod Scan
pub mod Validator
pub mod Reference
pub mod Rendered
pub mod Prompt
pub mod Budget
