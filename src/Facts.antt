-- ===== src/Facts.antt =====
-- internal/memory: what a client declares of a new fact.
pub mod Subject
