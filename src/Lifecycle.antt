-- ===== src/Lifecycle.antt =====
-- internal/memory/lifecycle: the lifecycle metadata of a fact, its payload form, its validation
-- and its order.
pub mod Model
pub mod Parse
pub mod Payload
pub mod Write
pub mod Rank
pub mod Presentation
