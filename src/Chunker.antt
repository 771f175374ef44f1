-- ===== src/Chunker.antt =====
-- The chunker: backend/app/services/document_chunker.py.
pub mod Text
pub mod Windows
pub mod Rows
pub mod Structured
pub mod Document
