-- ===== src/Policy.antt =====
-- internal/aipolicy: the budget of calls to an inference provider.
pub mod Budget
