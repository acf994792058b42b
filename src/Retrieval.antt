-- ===== src/Retrieval.antt =====
-- internal/retrieval: the fusion of ranked lists of candidates.
pub mod MultiList
pub mod Lexical
pub mod Rank
