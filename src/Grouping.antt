-- ===== src/Grouping.antt =====
-- internal/factgrouping/grouping.go: reviewed changes of the tags of facts, kept in a journal.
pub mod Manifest
pub mod Run
