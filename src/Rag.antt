-- ===== src/Rag.antt =====
-- internal/rag: document indexing. Modelled here: how a file is cut into chunks.
pub mod Chunker
